-- ===== src/Engine/Commit/Atomic.antt =====
-- An attempt of `processBuffer` of packages/core/src/group-commit.ts against the journal of the object,
-- with what other clients do before and between its calls.
use osqueue.Base.{
  ℕ, ◌≡◌, refl, ap, ◌∙◌, subst, inl, inr, List, [], ◌∷◌, ◌++◌, Option, none, some, Extends,
  Extends-refl, Extends-trans, Bool-cases,
}
use osqueue.Types.{JobId, StorageVersion, QueueState}
use osqueue.Types.Errors.{Thrown, Result, ok, thrown, is_cas_conflict}
use osqueue.Queue.{expire_heartbeats}
use osqueue.Storage.{StorageBackend}
use osqueue.Storage.Journal.{WrittenOnto, JournalView, IsJournaled}
use osqueue.Engine.{Codec, Options, Pending, Engine, World, Batched, apply_batch, resolve_all}
use osqueue.Engine.Commit.{
  Attempted, escaped, done, refused, ensure_cached, after_ensure, committed, write_failed,
  write_batch, with_cache, attempt,
}
use osqueue.Engine.Commit.Coherence.{
  Result-cases, Stored, Coherent, Coherent-Extends, IsSane, HasRead, ensure_cached-HasRead,
}

module _ (uuid : ℕ → JobId) (K : Codec) (S : StorageBackend K.Bytes) (o : Options)
    (V : JournalView S) (J : IsJournaled S o.state_key V)
    (decode-encode : (state : QueueState) → K.decode (K.encode state) ≡ ok state) where
  abbrev pub Sane : World S.State → Type 0
  Sane = IsSane uuid K S o V J

  -- The pass over a state at one time: expiry, then the batch in order.
  abbrev pub pass : QueueState → List Pending → ℕ → ℕ → Batched
  pass base batch now drawn =
      apply_batch uuid (expire_heartbeats base now o.heartbeat_timeout_ms) batch now drawn

  -- Between the two states of the world the batch was committed: the journal was extended by
  -- others, up to a last content that decodes to `base`, and then by the pass over `base`. The
  -- promises of the batch are resolved with the results of that pass.
  pub record Commits (batch : List Pending) (w w' : World S.State) : Type 0 where
    pub earlier : List K.Bytes
    pub last : K.Bytes
    pub base : QueueState
    pub now : ℕ
    pub drawn : ℕ
    pub since : Extends (V.journal w.store) (earlier ++ last ∷ [])
    pub decoded : K.decode last ≡ ok base
    pub added :
        V.journal w'.store
        ≡ (earlier ++ last ∷ []) ++ K.encode (pass base batch now drawn).state ∷ []
    pub settles :
        w'.engine.settled
        ≡ w.engine.settled ++ resolve_all batch (pass base batch now drawn).results

  -- Nothing was settled, and others at most have added to the journal.
  pub record Idles (w w' : World S.State) : Type 0 where
    pub sane : Sane w'
    pub extends : Extends (V.journal w.store) (V.journal w'.store)
    pub same_settled : w'.engine.settled ≡ w.engine.settled

  abbrev pub AttemptIsAtomic : List Pending → World S.State → Attempted uuid K S o → Type 0
  AttemptIsAtomic batch w (escaped e w') = Idles w w'
  AttemptIsAtomic batch w (refused e w') = Idles w w'
  AttemptIsAtomic batch w (done w') = Sane w' × Commits batch w w'

  -- The content that a write was made onto is the one that was cached.
  base_decodes :
      (state : QueueState) (v v' : StorageVersion) (old new : List K.Bytes) (bytes : K.Bytes)
      (onto : WrittenOnto V.Names old new bytes v v')
      → Stored uuid K S o V J state v old
      → K.decode onto.base ≡ ok state
  base_decodes state v v' old new bytes onto (stored, named, d) =
      subst (λ b. K.decode b ≡ ok state)
        (J.Names-unique _ v stored onto.base (J.Names-Extends old _ v stored onto.since named)
          onto.named)
        d

  -- A failed write keeps the cache or forgets its version.
  write_failed-Coherent :
      (e : Thrown) (b : Batched) (g : Engine) (journal : List K.Bytes)
      → Coherent uuid K S o V J g.cached_state g.cached_version journal
      → let g' = write_failed uuid K S o e b g in
        Coherent uuid K S o V J g'.cached_state g'.cached_version journal × (g'.settled ≡ g.settled)
  unfolding write_failed
  write_failed-Coherent e b g journal h = elim (Bool-cases (is_cas_conflict e)) [
    | inl c ↦ rw (c, write_failed) (tt, refl)
    | inr c ↦ rw (c, write_failed) (h, refl)
  ]

  -- The content that a write added is the one that its version names.
  written-Stored :
      (state : QueueState) (v v' : StorageVersion) (old new : List K.Bytes)
      → WrittenOnto V.Names old new (K.encode state) v v'
      → Stored uuid K S o V J state v' new
  written-Stored state v v' old new onto = (K.encode state, onto.returned, decode-encode state)

  write_batch-AttemptIsAtomic :
      (batch : List Pending) (now : ℕ) (w : World S.State) (cached : QueueState)
      (v : StorageVersion)
      → Sane w
      → Stored uuid K S o V J cached v (V.journal w.store)
      → AttemptIsAtomic batch w (write_batch uuid K S o batch now w cached v)
  unfolding write_batch committed
  write_batch-AttemptIsAtomic batch now w cached v h stored =
      let b = pass cached batch now w.engine.drawn in
      let bytes = K.encode b.state in
      elim (Result-cases (S.write o.state_key bytes v w.store).0) [
        | inr (e, r) ↦
            let x = J.write_extends w.store bytes v h.valid in
            let (c, same) = write_failed-Coherent e b w.engine _ (
              Coherent-Extends uuid K S o V J w.engine.cached_state w.engine.cached_version _ _ x
                h.coherent) in
            rw (r, write_batch)
              (record {
                sane = record { valid = J.write-IsValid w.store bytes v h.valid; coherent = c };
                extends = x;
                same_settled = same;
              })
        | inl (v', r) ↦
            let onto = J.write-ok w.store bytes v v' h.valid r in
            rw (r, write_batch)
              (
                record {
                  valid = J.write-IsValid w.store bytes v h.valid;
                  coherent = written-Stored b.state v v' _ _ onto;
                },
                record {
                  earlier = onto.earlier;
                  last = onto.base;
                  base = cached;
                  now = now;
                  drawn = w.engine.drawn;
                  since = onto.since;
                  decoded = base_decodes cached v v' _ _ bytes onto stored;
                  added = onto.added;
                  settles = refl;
                },
              )
      ]

  with_cache-AttemptIsAtomic :
      (batch : List Pending) (now : ℕ) (w : World S.State) (state : Option QueueState)
      (v : Option StorageVersion)
      → Sane w
      → Coherent uuid K S o V J state v (V.journal w.store)
      → AttemptIsAtomic batch w (with_cache uuid K S o batch now w state v)
  unfolding with_cache
  with_cache-AttemptIsAtomic batch now w (some cached) (some v) h c =
      write_batch-AttemptIsAtomic batch now w cached v h c
  with_cache-AttemptIsAtomic batch now w (some cached) none h c = record {
    sane = h;
    extends = Extends-refl _;
    same_settled = refl;
  }
  with_cache-AttemptIsAtomic batch now w none v h c = record {
    sane = h;
    extends = Extends-refl _;
    same_settled = refl;
  }

  -- What holds from a state on holds from an earlier one.
  pub Idles-from :
      (w u w' : World S.State)
      → Extends (V.journal w.store) (V.journal u.store)
      → u.engine.settled ≡ w.engine.settled
      → Idles u w'
      → Idles w w'
  Idles-from w u w' x e i = record {
    sane = i.sane;
    extends = Extends-trans _ _ _ x i.extends;
    same_settled = i.same_settled ∙ e;
  }

  pub Commits-from :
      (batch : List Pending) (w u w' : World S.State)
      → Extends (V.journal w.store) (V.journal u.store)
      → u.engine.settled ≡ w.engine.settled
      → Commits batch u w'
      → Commits batch w w'
  Commits-from batch w u w' x e c = record {
    earlier = c.earlier;
    last = c.last;
    base = c.base;
    now = c.now;
    drawn = c.drawn;
    since = Extends-trans _ _ _ x c.since;
    decoded = c.decoded;
    added = c.added;
    settles =
        c.settles ∙ ap (λ l. l ++ resolve_all batch (pass c.base batch c.now c.drawn).results) e;
  }

  pub AttemptIsAtomic-from :
      (batch : List Pending) (w u : World S.State)
      → Extends (V.journal w.store) (V.journal u.store)
      → u.engine.settled ≡ w.engine.settled
      → (a : Attempted uuid K S o) → AttemptIsAtomic batch u a
      → AttemptIsAtomic batch w a
  AttemptIsAtomic-from batch w u x e (escaped err w') i = Idles-from w u w' x e i
  AttemptIsAtomic-from batch w u x e (refused err w') i = Idles-from w u w' x e i
  AttemptIsAtomic-from batch w u x e (done w') (h, c) = (h, Commits-from batch w u w' x e c)

  after_ensure-AttemptIsAtomic :
      (batch : List Pending) (now : ℕ) (w : World S.State) (r : Result (Unit {0}) × World S.State)
      → HasRead uuid K S o V J w r.1
      → AttemptIsAtomic batch w (after_ensure uuid K S o batch now r)
  unfolding after_ensure
  after_ensure-AttemptIsAtomic batch now w (thrown e, u) read = record {
    sane = read.sane;
    extends = read.extends;
    same_settled = read.same_settled;
  }
  after_ensure-AttemptIsAtomic batch now w (ok _, u) read =
      AttemptIsAtomic-from batch w u read.extends read.same_settled _ (
        with_cache-AttemptIsAtomic batch now u u.engine.cached_state u.engine.cached_version
          read.sane read.sane.coherent)

  pub attempt-AttemptIsAtomic :
      (batch : List Pending) (now : ℕ) (w : World S.State)
      → Sane w
      → AttemptIsAtomic batch w (attempt uuid K S o batch now w)
  unfolding attempt
  attempt-AttemptIsAtomic batch now w h =
      after_ensure-AttemptIsAtomic batch now w (ensure_cached uuid K S o w)
        (ensure_cached-HasRead uuid K S o V J w h)
