-- ===== src/Engine/Commit/Contention.antt =====
-- What an attempt of `processBuffer` of packages/core/src/group-commit.ts comes to on a backend where the
-- other clients interfere a limited number of times.
use osqueue.Base.{
  ℕ, zero, suc, String, ◌≤◌, ◌<◌, ◌≡◌, refl, sym, ap, subst, ◌∙◌, ◌⊎◌, inl, inr, true, false, ◌&&◌,
  is_some, if◌then◌else◌, List, ◌++◌, Option, none, some, arith, Bool-cases,
}
use osqueue.Types.{JobId, QueueState, StorageVersion}
use osqueue.Types.Errors.{Thrown, ok, thrown, is_cas_conflict}
use osqueue.Queue.{expire_heartbeats}
use osqueue.Storage.{StorageBackend, StorageReadResult}
use osqueue.Engine.{Codec, Options, Pending, Engine, World, Batched, apply_batch, resolve_all}
use osqueue.Engine.Commit.{
  Attempted, escaped, done, refused, cache_read, refresh_cache, is_cached, ensure_cached, committed,
  write_failed, write_batch, with_cache, after_ensure, attempt,
}

-- What is promised of a backend on which the other clients interfere a limited number of times, the
-- budget: reads succeed, a write either succeeds or is refused for a conflict, and one with the version
-- that was current is refused only if another client interfered, which uses up the budget.
pub record Contention (K : Codec) (S : StorageBackend K.Bytes) (key : String) : Type 1 where
  pub Serves : S.State → Type 0
  pub budget : S.State → ℕ
  pub Current : StorageVersion → S.State → Type 0
  pub read-finds :
      (s : S.State)
      → Serves s
      → let (r, s') = S.read key s in
        (found : StorageReadResult K.Bytes) × (state : QueueState) × (r ≡ ok (some found))
        × (K.decode found.bytes ≡ ok state)
        × Serves s'
        × Current found.version s'
        × (budget s' ≤ budget s)
  pub write-meets :
      (s : S.State) (bytes : K.Bytes) (v : StorageVersion)
      → Serves s
      → let (r, s') = S.write key bytes v s in
        ((v' : StorageVersion) × (r ≡ ok v'))
        ⊎ (e : Thrown) × (r ≡ thrown e)
          × (is_cas_conflict e ≡ true)
          × Serves s'
          × (budget s' ≤ budget s)
          × (Current v s → budget s' < budget s)

module _ (uuid : ℕ → JobId) (K : Codec) (S : StorageBackend K.Bytes) (o : Options)
    (C : Contention K S o.state_key) where
  open C use {Serves, budget, Current}

  -- A cached version that is current leaves `n` interferences, and one that is not needs one attempt
  -- to find that out.
  abbrev pub ReadyAt : ℕ → S.State → Option StorageVersion → Option QueueState → Type 0
  ReadyAt n s none cached = Serves s × (budget s ≤ n)
  ReadyAt n s (some v) none = Serves s × (budget s ≤ n)
  ReadyAt n s (some v) (some cached) = Serves s × (Current v s × (budget s ≤ n) ⊎ (budget s < n))

  abbrev pub Ready : ℕ → World S.State → Type 0
  Ready n w = ReadyAt n w.store w.engine.cached_version w.engine.cached_state

  -- The promises of the batch are resolved, with the results of applying it to some state.
  abbrev pub Resolves : List Pending → World S.State → World S.State → Type 0
  Resolves batch w w' =
      (state : QueueState) × (now : ℕ) × (drawn : ℕ) × (w'.engine.settled
        ≡ w.engine.settled ++ resolve_all batch (apply_batch uuid state batch now drawn).results)

  -- An attempt resolves the batch, or it leaves one retry less and needs one less.
  abbrev pub Advances : ℕ → List Pending → World S.State → Attempted uuid K S o → Type 0
  Advances n batch w (escaped e w') = ⊥
  Advances n batch w (done w') = Resolves batch w w'
  Advances n batch w (refused e w') =
      (is_cas_conflict e ≡ true)
      × (m : ℕ) × (n ≡ suc m)
      × Ready m w'
      × (w'.engine.settled ≡ w.engine.settled)

  spend :
      (n : ℕ) (v : StorageVersion) (s s' : S.State)
      → Current v s × (budget s ≤ n) ⊎ (budget s < n)
      → budget s' ≤ budget s
      → (Current v s → budget s' < budget s)
      → (m : ℕ) × (n ≡ suc m) × (budget s' ≤ m)
  spend zero v s s' (inl (c, le)) h k = absurd (omega (arith, le, k c))
  spend zero v s s' (inr lt) h k = absurd (omega (arith, lt))
  spend (suc n) v s s' (inl (c, le)) h k = (n, refl, omega (arith, le, k c))
  spend (suc n) v s s' (inr lt) h k = (n, refl, omega (arith, lt, h))

  write_failed-conflict :
      (e : Thrown) (b : Batched) (g : Engine)
      → is_cas_conflict e ≡ true
      → ((write_failed uuid K S o e b g).cached_version ≡ none)
        × ((write_failed uuid K S o e b g).settled ≡ g.settled)
  unfolding write_failed
  write_failed-conflict e b g c = rw (c, write_failed) (refl, refl)

  write_batch-Advances :
      (n : ℕ) (batch : List Pending) (now : ℕ) (w : World S.State) (cached : QueueState)
      (v : StorageVersion)
      → Serves w.store
      → Current v w.store × (budget w.store ≤ n) ⊎ (budget w.store < n)
      → Advances n batch w (write_batch uuid K S o batch now w cached v)
  unfolding write_batch committed
  write_batch-Advances n batch now w cached v h ready =
      let base = expire_heartbeats cached now o.heartbeat_timeout_ms in
      let bytes = K.encode (apply_batch uuid base batch now w.engine.drawn).state in
      elim (C.write-meets w.store bytes v h) [
        | inl (v', e) ↦ rw (e, write_batch) (base, now, w.engine.drawn, refl)
        | inr (e, r, conflict, h', le, lt) ↦
            let (m, same, fits) =
              spend n v w.store (S.write o.state_key bytes v w.store).1 ready le lt in
            let b = apply_batch uuid base batch now w.engine.drawn in
            let (unset, kept) = write_failed-conflict e b w.engine conflict in
            let ready' =
              subst
                (λ x.
                  ReadyAt m (S.write o.state_key bytes v w.store).1 x
                    (write_failed uuid K S o e b w.engine).cached_state)
                (sym unset) (h', fits) in
            rw (r, write_batch) (conflict, m, same, ready', kept)
      ]

  with_cache-Advances :
      (n : ℕ) (batch : List Pending) (now : ℕ) (w : World S.State) (cached : QueueState)
      (v : StorageVersion)
      → w.engine.cached_state ≡ some cached
      → w.engine.cached_version ≡ some v
      → Ready n w
      → Advances n batch w (after_ensure uuid K S o batch now (ok tt, w))
  unfolding after_ensure with_cache
  with_cache-Advances n batch now w cached v e d h =
      let (h', ready) =
        subst (λ x. ReadyAt n w.store x (some cached)) d
          (subst (ReadyAt n w.store w.engine.cached_version) e h) in
      let w' : World S.State = record w {
        engine = record (w.engine) { cached_state = some cached; cached_version = some v };
      } in
      rw (e, d, after_ensure) (write_batch-Advances n batch now w' cached v h' ready)

  -- Until then nothing was settled.
  Advances-from :
      (n : ℕ) (batch : List Pending) (w u : World S.State) (x : Attempted uuid K S o)
      → u.engine.settled ≡ w.engine.settled
      → Advances n batch u x
      → Advances n batch w x
  Advances-from n batch w u (escaped e w') q a = a
  Advances-from n batch w u (done w') q (state, now, drawn, r) = (
    state,
    now,
    drawn,
    r ∙ ap (λ l. l ++ resolve_all batch (apply_batch uuid state batch now drawn).results) q,
  )
  Advances-from n batch w u (refused e w') q (c, m, same, h, r) = (c, m, same, h, r ∙ q)

  is_cached-both :
      (g : Engine)
      → is_cached uuid K S o g ≡ true
      → (cached : QueueState) × (v : StorageVersion) × (g.cached_state ≡ some cached)
        × (g.cached_version ≡ some v)
  is_cached-both g h = by_both g.cached_state g.cached_version h
    where
      by_both :
          (c : Option QueueState) (v : Option StorageVersion)
          → (is_some c && is_some v) ≡ true
          → (cached : QueueState) × (v' : StorageVersion) × (c ≡ some cached) × (v ≡ some v')
      by_both none v k = absurd (cc)
      by_both (some c) none k = absurd (cc)
      by_both (some c) (some v) k = (c, v, refl, refl)

  uncached :
      (n : ℕ) (s : S.State) (v : Option StorageVersion) (c : Option QueueState)
      → (is_some c && is_some v) ≡ false
      → ReadyAt n s v c
      → Serves s × (budget s ≤ n)
  uncached n s none c k h = h
  uncached n s (some v) none k h = h
  uncached n s (some v) (some c) k h = absurd (cc)

  refreshed : World S.State → QueueState → StorageVersion → World S.State
  refreshed w state v = record {
    engine = record (w.engine) { cached_state = some state; cached_version = some v };
    store = (S.read o.state_key w.store).1;
  }

  refresh_cache-refreshed :
      (w : World S.State) (found : StorageReadResult K.Bytes) (state : QueueState)
      → (S.read o.state_key w.store).0 ≡ ok (some found)
      → K.decode found.bytes ≡ ok state
      → refresh_cache uuid K S o w ≡ (ok tt, refreshed w state found.version)
  unfolding refresh_cache cache_read refreshed
  refresh_cache-refreshed w found state e d = rw (e, refresh_cache) (rw (d, cache_read) refl)

  pub attempt-Advances :
      (n : ℕ) (batch : List Pending) (now : ℕ) (w : World S.State)
      → Ready n w
      → Advances n batch w (attempt uuid K S o batch now w)
  unfolding attempt ensure_cached after_ensure with_cache refreshed
  attempt-Advances n batch now w h = elim (Bool-cases (is_cached uuid K S o w.engine)) [
    | inl e ↦
        let (cached, v, c, d) = is_cached-both w.engine e in
        let same =
          ap
            (λ b.
              after_ensure uuid K S o batch now
                (if b then (ok tt, w) else refresh_cache uuid K S o w))
            e in
        subst (Advances n batch w) (sym same) (with_cache-Advances n batch now w cached v c d h)
    | inr e ↦
        let (serves, le) = uncached n w.store w.engine.cached_version w.engine.cached_state e h in
        let (found, state, r, d, serves', current, le') = C.read-finds w.store serves in
        let u = refreshed w state found.version in
        let same =
          ap
            (λ b.
              after_ensure uuid K S o batch now
                (if b then (ok tt, w) else refresh_cache uuid K S o w))
            e
          ∙ ap (after_ensure uuid K S o batch now) (refresh_cache-refreshed w found state r d) in
        let advances =
          write_batch-Advances n batch now u state found.version serves'
            (inl (current, omega (arith, le, le'))) in
        subst (Advances n batch w) (sym same) (
          Advances-from n batch w u (write_batch uuid K S o batch now u state found.version) refl
            advances)
  ]
