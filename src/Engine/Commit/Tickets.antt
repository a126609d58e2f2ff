-- ===== src/Engine/Commit/Tickets.antt =====
-- The tickets that one run of `processBuffer` of packages/core/src/group-commit.ts settles, and their
-- order.
use osqueue.Base.{
  ℕ, zero, suc, ◌≡◌, ◌≢◌, refl, ap, sym, ◌∙◌, ◌⊎◌, inl, inr, List, [], ◌∷◌, ◌++◌, Option, none,
  some, Bool-cases,
}
use mathlib.Core.List.{append-nil}
use osqueue.Types.{JobId, QueueState, StorageVersion}
use osqueue.Types.Errors.{Thrown, Result, ok, thrown, is_cas_conflict}
use osqueue.Queue.{expire_heartbeats}
use osqueue.Storage.{StorageBackend, StorageReadResult}
use osqueue.Engine.{
  Codec, Options, Pending, Settlement, Engine, World, Batched, apply_batch, wrap_engine, reject_all,
  resolve_all,
}
use osqueue.Engine.Commit.Coherence.{Result-cases}
use osqueue.Engine.Commit.{
  Attempted, escaped, done, refused, cache_read, is_cached, refresh_cache, ensure_cached, committed,
  write_failed, give_up_batch, write_batch, with_cache, after_ensure, attempt, reject_batch,
  attempts, drained, process,
}

abbrev pub tickets : List Pending → List ℕ
tickets [] = []
tickets (pm ∷ batch) = pm.ticket ∷ tickets batch

abbrev pub settled_tickets : List (ℕ × Settlement) → List ℕ
settled_tickets [] = []
settled_tickets ((n, s) ∷ settled) = n ∷ settled_tickets settled

pub settled_tickets-append :
    (xs ys : List (ℕ × Settlement))
    → settled_tickets (xs ++ ys) ≡ settled_tickets xs ++ settled_tickets ys
settled_tickets-append [] ys = refl
settled_tickets-append ((n, s) ∷ xs) ys = ap (◌∷◌ n) (settled_tickets-append xs ys)

pub tickets-append : (xs ys : List Pending) → tickets (xs ++ ys) ≡ tickets xs ++ tickets ys
tickets-append [] ys = refl
tickets-append (x ∷ xs) ys = ap (◌∷◌ x.ticket) (tickets-append xs ys)

pub settled_tickets-reject_all :
    (e : Thrown) (batch : List Pending) → settled_tickets (reject_all e batch) ≡ tickets batch
unfolding reject_all
settled_tickets-reject_all e [] = refl
settled_tickets-reject_all e (pm ∷ batch) = ap (◌∷◌ pm.ticket) (settled_tickets-reject_all e batch)

-- Applying a batch gives a result for each of its mutations.
pub settled_tickets-resolve_all :
    (uuid : ℕ → JobId) (batch : List Pending) (now : ℕ) (state : QueueState) (drawn : ℕ)
    → settled_tickets (resolve_all batch (apply_batch uuid state batch now drawn).results)
      ≡ tickets batch
unfolding resolve_all apply_batch
settled_tickets-resolve_all uuid [] now state drawn = refl
settled_tickets-resolve_all uuid (pm ∷ batch) now state drawn =
    ap (◌∷◌ pm.ticket) (settled_tickets-resolve_all uuid batch now _ _)

-- Between two engines: the same buffer and counter, and the promises `n` settled.
pub record Settled (n : List ℕ) (g g' : Engine) : Type 0 where
  pub same_buffer : g'.buffer ≡ g.buffer
  pub same_next : g'.next_ticket ≡ g.next_ticket
  pub adds : settled_tickets g'.settled ≡ settled_tickets g.settled ++ n

Settled-none : (g : Engine) → Settled [] g g
Settled-none g = record { same_buffer = refl; same_next = refl; adds = sym (append-nil _) }

Settled-from : (n : List ℕ) (g h k : Engine) → Settled [] g h → Settled n h k → Settled n g k
Settled-from n g h k a b = record {
  same_buffer = b.same_buffer ∙ a.same_buffer;
  same_next = b.same_next ∙ a.same_next;
  adds = b.adds ∙ ap (λ l. l ++ n) (a.adds ∙ append-nil _);
}

module _ (uuid : ℕ → JobId) (K : Codec) (S : StorageBackend K.Bytes) (o : Options) where
  cache_read-Settled :
      (g : Engine) (s : S.State) (r : Option (StorageReadResult K.Bytes))
      → Settled [] g (cache_read uuid K S o g s r).1.engine
  unfolding cache_read
  cache_read-Settled g s none = Settled-none g
  cache_read-Settled g s (some r) = elim (Result-cases (K.decode r.bytes)) [
    | inl (state, d) ↦
        rw (d, cache_read)
          (record { same_buffer = refl; same_next = refl; adds = sym (append-nil _) })
    | inr (e, d) ↦ rw (d, cache_read) (Settled-none g)
  ]

  refresh_cache-Settled :
      (w : World S.State) → Settled [] w.engine (refresh_cache uuid K S o w).1.engine
  unfolding refresh_cache
  refresh_cache-Settled w = elim (Result-cases (S.read o.state_key w.store).0) [
    | inl (r, e) ↦ rw (e, refresh_cache) (cache_read-Settled w.engine _ r)
    | inr (err, e) ↦ rw (e, refresh_cache) (Settled-none w.engine)
  ]

  ensure_cached-Settled :
      (w : World S.State) → Settled [] w.engine (ensure_cached uuid K S o w).1.engine
  unfolding ensure_cached
  ensure_cached-Settled w = elim (Bool-cases (is_cached uuid K S o w.engine)) [
    | inl e ↦ rw (e, ensure_cached) (Settled-none w.engine)
    | inr e ↦ rw (e, ensure_cached) (refresh_cache-Settled w)
  ]

  abbrev AttemptSettles : List Pending → Engine → Attempted uuid K S o → Type 0
  AttemptSettles batch g (escaped e w') = Settled [] g w'.engine
  AttemptSettles batch g (refused e w') = Settled [] g w'.engine
  AttemptSettles batch g (done w') = Settled (tickets batch) g w'.engine

  write_failed-Settled :
      (e : Thrown) (b : Batched) (g : Engine) → Settled [] g (write_failed uuid K S o e b g)
  unfolding write_failed
  write_failed-Settled e b g = elim (Bool-cases (is_cas_conflict e)) [
    | inl c ↦
        rw (c, write_failed)
          (record { same_buffer = refl; same_next = refl; adds = sym (append-nil _) })
    | inr c ↦
        rw (c, write_failed)
          (record { same_buffer = refl; same_next = refl; adds = sym (append-nil _) })
  ]

  write_batch-Settles :
      (batch : List Pending) (now : ℕ) (w : World S.State) (cached : QueueState)
      (v : StorageVersion)
      → AttemptSettles batch w.engine (write_batch uuid K S o batch now w cached v)
  unfolding write_batch committed
  write_batch-Settles batch now w cached v =
      let base = expire_heartbeats cached now o.heartbeat_timeout_ms in
      let b = apply_batch uuid base batch now w.engine.drawn in
      elim (Result-cases (S.write o.state_key (K.encode b.state) v w.store).0) [
        | inr (e, r) ↦ rw (r, write_batch) (write_failed-Settled e b w.engine)
        | inl (v', r) ↦
            rw (r, write_batch)
              (record {
                same_buffer = refl;
                same_next = refl;
                adds =
                    settled_tickets-append w.engine.settled (resolve_all batch b.results)
                    ∙ ap (◌++◌ (settled_tickets w.engine.settled))
                        (settled_tickets-resolve_all uuid batch now base w.engine.drawn);
              })
      ]

  with_cache-Settles :
      (batch : List Pending) (now : ℕ) (w : World S.State) (state : Option QueueState)
      (v : Option StorageVersion)
      → AttemptSettles batch w.engine (with_cache uuid K S o batch now w state v)
  unfolding with_cache
  with_cache-Settles batch now w (some cached) (some v) = write_batch-Settles batch now w cached v
  with_cache-Settles batch now w (some cached) none = Settled-none w.engine
  with_cache-Settles batch now w none v = Settled-none w.engine

  AttemptSettles-from :
      (batch : List Pending) (g h : Engine) (a : Attempted uuid K S o)
      → Settled [] g h
      → AttemptSettles batch h a
      → AttemptSettles batch g a
  AttemptSettles-from batch g h (escaped e w') x y = Settled-from [] g h w'.engine x y
  AttemptSettles-from batch g h (refused e w') x y = Settled-from [] g h w'.engine x y
  AttemptSettles-from batch g h (done w') x y = Settled-from (tickets batch) g h w'.engine x y

  after_ensure-Settles :
      (batch : List Pending) (now : ℕ) (g : Engine) (r : Result (Unit {0}) × World S.State)
      → Settled [] g r.1.engine
      → AttemptSettles batch g (after_ensure uuid K S o batch now r)
  unfolding after_ensure
  after_ensure-Settles batch now g (thrown e, u) x = x
  after_ensure-Settles batch now g (ok _, u) x =
      AttemptSettles-from batch g u.engine _ x
        (with_cache-Settles batch now u u.engine.cached_state u.engine.cached_version)

  attempt-Settles :
      (batch : List Pending) (now : ℕ) (w : World S.State)
      → AttemptSettles batch w.engine (attempt uuid K S o batch now w)
  unfolding attempt
  attempt-Settles batch now w =
      after_ensure-Settles batch now w.engine (ensure_cached uuid K S o w) (ensure_cached-Settled w)

  -- All promises of the batch are settled, or none of them.
  abbrev pub AllOrNone : List Pending → Engine → Engine → Type 0
  AllOrNone batch g g' = Settled (tickets batch) g g' ⊎ Settled [] g g'

  AllOrNone-from :
      (batch : List Pending) (g h k : Engine)
      → Settled [] g h
      → AllOrNone batch h k
      → AllOrNone batch g k
  AllOrNone-from batch g h k x (inl y) = inl (Settled-from (tickets batch) g h k x y)
  AllOrNone-from batch g h k x (inr y) = inr (Settled-from [] g h k x y)

  reject_batch-Settles :
      (e : Thrown) (batch : List Pending) (w : World S.State)
      → AllOrNone batch w.engine (reject_batch uuid K S o e batch w).1.engine
  unfolding reject_batch give_up_batch
  reject_batch-Settles e batch w = inl (record {
    same_buffer = refl;
    same_next = refl;
    adds =
        settled_tickets-append w.engine.settled (reject_all (wrap_engine e) batch)
        ∙ ap (◌++◌ (settled_tickets w.engine.settled))
            (settled_tickets-reject_all (wrap_engine e) batch);
  })

  attempts-Settles :
      (retries : ℕ) (batch : List Pending) (clock : ℕ → ℕ) (i : ℕ) (w : World S.State)
      → AllOrNone batch w.engine (attempts uuid K S o retries batch clock i w).1.engine
  unfolding attempts
  attempts-Settles zero batch clock i w =
      last (attempt uuid K S o batch (clock i) w) refl (attempt-Settles batch (clock i) w)
    where
      last :
          (a : Attempted uuid K S o)
          → attempt uuid K S o batch (clock i) w ≡ a
          → AttemptSettles batch w.engine a
          → AllOrNone batch w.engine (attempts uuid K S o zero batch clock i w).1.engine
      last (escaped e u) q x = rw (q, attempts) (inr x)
      last (done u) q x = rw (q, attempts) (inl x)
      last (refused e u) q x =
          rw (q, attempts)
            (AllOrNone-from batch w.engine u.engine _ x (reject_batch-Settles e batch u))
  attempts-Settles (suc retries) batch clock i w =
      more (attempt uuid K S o batch (clock i) w) refl (attempt-Settles batch (clock i) w)
        (attempts-Settles retries batch clock (suc i))
    where
      more :
          (a : Attempted uuid K S o)
          → attempt uuid K S o batch (clock i) w ≡ a
          → AttemptSettles batch w.engine a
          → ((u : World S.State)
              → AllOrNone batch u.engine
                  (attempts uuid K S o retries batch clock (suc i) u).1.engine)
          → AllOrNone batch w.engine (attempts uuid K S o (suc retries) batch clock i w).1.engine
      more (escaped e u) q x again = rw (q, attempts) (inr x)
      more (done u) q x again = rw (q, attempts) (inl x)
      more (refused e u) q x again = elim (Bool-cases (is_cas_conflict e)) [
        | inl c ↦ rw (q, attempts) (rw c (AllOrNone-from batch w.engine u.engine _ x (again u)))
        | inr c ↦
            rw (q, attempts)
              (rw c (AllOrNone-from batch w.engine u.engine _ x (reject_batch-Settles e batch u)))
      ]

  pub process-Settles :
      (batch : List Pending) (clock : ℕ → ℕ) (w : World S.State)
      → batch ≢ []
      → AllOrNone batch (drained uuid K S o w).engine (process uuid K S o batch clock w).1.engine
  unfolding process
  process-Settles [] clock w some_batch = absurd (some_batch refl)
  process-Settles (pm ∷ batch) clock w some_batch =
      attempts-Settles o.max_retries (pm ∷ batch) clock 0 (drained uuid K S o w)
