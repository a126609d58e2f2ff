-- ===== src/Engine/Commit/Refines.antt =====
-- A write pass of packages/core/src/group-commit.ts against histories of the queue's own state machine.
use osqueue.Base.{Extends, ◌⊎◌, inl, inr, ◌≢◌, ℕ, ◌≡◌, refl, sym, ap, ◌∙◌, List, [], ◌∷◌, ◌++◌, map}
use osqueue.Types.{JobId, QueueState}
use osqueue.Types.Errors.{ok}
use osqueue.Queue.{expire_heartbeats, apply_mutation}
use osqueue.Queue.History.{
  Machine, Event, mutates, expires, Reaches, then_step, step, here, IsValid, Reaches-IsValid, next,
  run,
}
use osqueue.Storage.{StorageBackend}
use osqueue.Storage.Journal.{JournalView, IsJournaled}
use osqueue.Engine.{Codec, Options, Pending, Batched, World, apply_batch}
use osqueue.Engine.Commit.Coherence.{IsSane}
use osqueue.Engine.Commit.{process_buffer}
use osqueue.Engine.Commit.Atomic.{Commits, pass}
use osqueue.Engine.Commit.Outcome.{Rejects, Escapes, process_buffer-Finishes}

-- What a pass does to the queue: the expiry, and then the mutations of the batch, in order.
abbrev pub history : ℕ → ℕ → List Pending → List Event
history now timeout_ms batch =
    expires now timeout_ms ∷ map (λ (pm : Pending). mutates pm.mutation now) batch

abbrev pub machine_of : Batched → Machine
machine_of b = record { state = b.state; drawn = b.drawn }

apply_batch-run :
    (uuid : ℕ → JobId) (batch : List Pending) (now : ℕ) (state : QueueState) (drawn : ℕ)
    → run uuid
        (record { state = state; drawn = drawn })
        (map (λ (pm : Pending). mutates pm.mutation now) batch)
      ≡ machine_of (apply_batch uuid state batch now drawn)
unfolding run next apply_batch
apply_batch-run uuid [] now state drawn = refl
apply_batch-run uuid (pm ∷ batch) now state drawn =
    let a = apply_mutation uuid state pm.mutation now drawn in
    apply_batch-run uuid batch now a.state a.drawn

Reaches-trans :
    {uuid : ℕ → JobId} {q r t : Machine} → Reaches uuid q r → Reaches uuid r t → Reaches uuid q t
Reaches-trans a here = a
Reaches-trans a (then_step b s) = then_step (Reaches-trans a b) s

run-Reaches :
    (uuid : ℕ → JobId) (events : List Event) (q : Machine) → Reaches uuid q (run uuid q events)
unfolding run
run-Reaches uuid [] q = here
run-Reaches uuid (e ∷ events) q =
    Reaches-trans (then_step here (step q e)) (run-Reaches uuid events (next uuid q e))

module _ (uuid : ℕ → JobId) (K : Codec) (S : StorageBackend K.Bytes) (o : Options)
    (V : JournalView S) (J : IsJournaled S o.state_key V)
    (decode-encode : (state : QueueState) → K.decode (K.encode state) ≡ ok state) where
  run-pass :
      (base : QueueState) (batch : List Pending) (now drawn : ℕ)
      → run uuid (record { state = base; drawn = drawn }) (history now o.heartbeat_timeout_ms batch)
        ≡ machine_of (pass uuid K S o V J decode-encode base batch now drawn)
  unfolding run next
  run-pass base batch now drawn =
      apply_batch-run uuid batch now (expire_heartbeats base now o.heartbeat_timeout_ms) drawn

  -- Others extended the journal up to a last content, and then one content was added: the one that the
  -- queue's own state machine reaches from it. If the machine was valid, it still is.
  pub record RunsOnto (batch : List Pending) (w w' : World S.State) : Type 0 where
    pub earlier : List K.Bytes
    pub last : K.Bytes
    pub base : QueueState
    pub now : ℕ
    pub drawn : ℕ
    pub since : Extends (V.journal w.store) (earlier ++ last ∷ [])
    pub decoded : K.decode last ≡ ok base
    pub added :
        let q : Machine =
          run uuid
            (record { state = base; drawn = drawn })
            (history now o.heartbeat_timeout_ms batch) in
        V.journal w'.store ≡ (earlier ++ last ∷ []) ++ K.encode q.state ∷ []
    pub valid :
        IsValid uuid (record { state = base; drawn = drawn })
        → IsValid uuid (
            run uuid
              (record { state = base; drawn = drawn })
              (history now o.heartbeat_timeout_ms batch))

  commit-run :
      (batch : List Pending) (w w' : World S.State)
      → Commits uuid K S o V J decode-encode batch w w'
      → RunsOnto batch w w'
  commit-run batch w w' c =
      let q : Machine = record { state = c.base; drawn = c.drawn } in
      let same = run-pass c.base batch c.now c.drawn in
      record {
        earlier = c.earlier;
        last = c.last;
        base = c.base;
        now = c.now;
        drawn = c.drawn;
        since = c.since;
        decoded = c.decoded;
        added =
            c.added
            ∙ ap (λ (m : Machine). (c.earlier ++ c.last ∷ []) ++ K.encode m.state ∷ []) (sym same);
        valid = λ v.
            Reaches-IsValid uuid v
              (run-Reaches uuid (history c.now o.heartbeat_timeout_ms batch) q);
      }

  -- A pass is a step of the abstract queue, or none: on a backend that keeps the contract of a
  -- journal, with a coherent cache, if decoding gives back what was encoded, and whatever other
  -- clients do, `processBuffer` with a buffer that is not empty either adds one content, which the
  -- state machine of the queue makes of the last one by the expiry of heartbeats and the mutations of
  -- the buffer in order, or it rejects the whole buffer, or lets an error out and settles nothing. The
  -- machine that the added content comes from stays valid, if it was.
  pub process_buffer-RunsOnto :
      (clock : ℕ → ℕ) (w : World S.State)
      → IsSane uuid K S o V J w
      → w.engine.buffer ≢ []
      → let (r, w') = process_buffer uuid K S o clock w in
        (r ≡ ok tt) × RunsOnto w.engine.buffer w w'
        ⊎ (r ≡ ok tt) × Rejects uuid K S o V J decode-encode w.engine.buffer w w'
        ⊎ Escapes uuid K S o V J decode-encode r w w'
  process_buffer-RunsOnto clock w h some_batch =
      elim (process_buffer-Finishes uuid K S o V J decode-encode clock w h some_batch).1 [
        | inl (e, c) ↦ inl (e, commit-run w.engine.buffer w _ c)
        | inr other ↦ inr other
      ]
