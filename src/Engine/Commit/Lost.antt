-- ===== src/Engine/Commit/Lost.antt =====
-- The `catch` of `writeLoop` of packages/core/src/group-commit.ts: what is in the buffer by then, and what
-- becomes of the batch.
use osqueue.Base.{
  ℕ, zero, suc, ◌≡◌, refl, ap, sym, ◌∙◌, ◌≢◌, Bool, true, false, List, [], ◌∷◌, ◌++◌, arith, not,
  if◌then◌else◌,
}
use mathlib.Core.List.{append-nil, append_assoc}
use osqueue.Types.{JobId, Mutation}
use osqueue.Types.Errors.{Thrown, thrown}
use osqueue.Storage.{StorageBackend}
use osqueue.Engine.{
  Codec, Options, Pending, Engine, World, wrap_engine, reject_all, submit, schedule_loop,
}
use osqueue.Engine.Commit.{
  Attempted, is_cached, refresh_cache, ensure_cached, after_ensure, attempt, attempts, drained,
  process, process_buffer, submit_all, reject_buffer, reschedule, resume, write_loop,
}

if_running {ℓ} : {A : Type ℓ} {b : Bool} (x y : A) → b ≡ true → (if not b then x else y) ≡ y
if_running x y e = rw e

-- The entries of the buffer that submissions make, by the ticket of the first.
pub arrived : ℕ → List Mutation → List Pending
arrived ticket [] = []
arrived ticket (m ∷ arrivals) =
    record { ticket = ticket; mutation = m } ∷ arrived (suc ticket) arrivals

submit_lem :
    (m : Mutation) (g : Engine)
    → ((submit m g).buffer ≡ g.buffer ++ arrived g.next_ticket (m ∷ []))
      × ((submit m g).next_ticket ≡ suc g.next_ticket)
      × ((submit m g).settled ≡ g.settled)
      × ((submit m g).running ≡ g.running)
unfolding submit arrived schedule_loop
submit_lem m g = ground arith

module _ (uuid : ℕ → JobId) (K : Codec) (S : StorageBackend K.Bytes) (o : Options) where
  submit_all_lem :
      (arrivals : List Mutation) (g : Engine)
      → let g' = submit_all uuid K S o arrivals g in
        (g'.buffer ≡ g.buffer ++ arrived g.next_ticket arrivals) × (g'.settled ≡ g.settled)
  unfolding submit_all arrived
  submit_all_lem [] g = (sym (append-nil g.buffer), refl)
  submit_all_lem (m ∷ arrivals) g =
      let (b, t, s, r) = submit_lem m g in
      let rest = submit_all_lem arrivals (submit m g) in
      (
        rest.0
            ∙ rw (b, t)
                (append_assoc g.buffer (arrived g.next_ticket (m ∷ []))
                  (arrived (suc g.next_ticket) arrivals)),
        rest.1 ∙ s,
      )

  reschedule_lem :
      (g : Engine)
      → let g' = reschedule uuid K S o g in (g'.buffer ≡ g.buffer) × (g'.settled ≡ g.settled)
  unfolding reschedule schedule_loop
  reschedule_lem g = ground arith

  module _ (w : World S.State) (e : Thrown) (uncached : is_cached uuid K S o w.engine ≡ false)
      (unreadable : (S.read o.state_key w.store).0 ≡ thrown e) where
    abbrev after_read : World S.State
    after_read = record {
      engine = record (w.engine) { buffer = [] };
      store = (S.read o.state_key w.store).1;
    }

    ensure_escapes : ensure_cached uuid K S o (drained uuid K S o w) ≡ (thrown e, after_read)
    unfolding ensure_cached drained refresh_cache
    ensure_escapes = rw (uncached, ensure_cached) (rw (unreadable, refresh_cache))

    attempt_escapes :
        (batch : List Pending) (now : ℕ)
        → attempt uuid K S o batch now (drained uuid K S o w) ≡ Attempted.escaped e after_read
    unfolding attempt after_ensure
    attempt_escapes batch now = ap (after_ensure uuid K S o batch now) ensure_escapes

    attempts_escape :
        (retries : ℕ) (batch : List Pending) (clock : ℕ → ℕ)
        → attempts uuid K S o retries batch clock 0 (drained uuid K S o w) ≡ (thrown e, after_read)
    unfolding attempts
    attempts_escape zero batch clock = rw (attempt_escapes batch (clock 0), attempts)
    attempts_escape (suc retries) batch clock = rw (attempt_escapes batch (clock 0), attempts)

    process_escapes :
        (batch : List Pending) (clock : ℕ → ℕ)
        → batch ≢ []
        → process uuid K S o batch clock w ≡ (thrown e, after_read)
    unfolding process
    process_escapes [] clock h = absurd (h refl)
    process_escapes (pm ∷ batch) clock h = attempts_escape o.max_retries (pm ∷ batch) clock

    loop_escapes :
        (clock : ℕ → ℕ) (arrivals : List Mutation)
        → w.engine.running ≡ true
        → w.engine.buffer ≢ []
        → write_loop uuid K S o clock arrivals w ≡ resume uuid K S o arrivals (thrown e, after_read)
    unfolding write_loop process_buffer
    loop_escapes clock arrivals running some_batch =
        if_running _ _ running
        ∙ ap (resume uuid K S o arrivals) (process_escapes _ clock some_batch)

    -- A loop that has to read the state first, because the last write met a conflict, loses its
    -- batch if the read fails: the buffer is empty afterwards, and the promises that were settled
    -- are those of the mutations that arrived meanwhile. None of the batch is resolved or rejected.
    pub write_loop_loses_batch :
        (clock : ℕ → ℕ) (arrivals : List Mutation)
        → w.engine.running ≡ true
        → w.engine.buffer ≢ []
        → let g = (write_loop uuid K S o clock arrivals w).engine in
          (g.buffer ≡ [])
          × (g.settled
              ≡ w.engine.settled
                ++ reject_all (wrap_engine e) (arrived w.engine.next_ticket arrivals))
    unfolding resume reject_buffer
    write_loop_loses_batch clock arrivals running some_batch =
        let g = after_read.engine in
        let (b, s) = submit_all_lem arrivals g in
        let (b', s') =
          reschedule_lem (reject_buffer uuid K S o e (submit_all uuid K S o arrivals g)) in
        rw (loop_escapes clock arrivals running some_batch) (b', s' ∙ rw (s, b))
