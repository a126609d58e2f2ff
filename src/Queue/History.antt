-- ===== src/Queue/History.antt =====
-- Any history of mutations and expiry passes, from any state of the queue.
use osqueue.Base.{
  ℕ, suc, ◌+◌, ◌≡◌, refl, ap, inl, inr, List, [], ◌∷◌, ◌++◌, arith, length, keep, length-append,
  First,
}
use osqueue.Types.{JobId, Job, QueueState, JobInput, Mutation}
use osqueue.Queue.{
  empty_state, expire_heartbeats, register_broker, new_jobs, enqueue_jobs, apply_mutation,
}
use osqueue.Queue.Operations.{claim_job-first, heartbeat_job-first, complete_job-first}
use osqueue.Queue.Expiry.{gives_up, length-expire_jobs}
use osqueue.Queue.Validity.{AreSound, apply_mutation-AreSound, expire_heartbeats-AreSound}
use osqueue.Queue.Order.{InOrder, apply_mutation-InOrder, expire_heartbeats-InOrder}

-- A queue and the number of identifiers drawn for it.
pub record Machine : Type 0 where
  pub state : QueueState
  pub drawn : ℕ

pub data Event : Type 0 where
  mutates : Mutation → ℕ → Event
  expires : ℕ → ℕ → Event

-- Jobs that a history has dealt with: those still there, and those that were completed.
abbrev pub accounted : QueueState → ℕ
accounted s = length s.jobs + s.completed_total

-- The jobs that an event brings in, and those that it gives up on.
abbrev pub enqueued : Event → ℕ
enqueued (mutates (Mutation.enqueue inputs) now) = length inputs
enqueued _ = 0

abbrev pub given_up : QueueState → Event → ℕ
given_up s (mutates m now) = 0
given_up s (expires now timeout_ms) = length (keep (gives_up now timeout_ms) s.jobs)

module _ (uuid : ℕ → JobId) where
  unfoldable pub next : Machine → Event → Machine
  next q (mutates m now) =
      let a = apply_mutation uuid q.state m now q.drawn in
      record { state = a.state; drawn = a.drawn }
  next q (expires now timeout_ms) = record {
    state = expire_heartbeats q.state now timeout_ms;
    drawn = q.drawn;
  }

  -- One event, chosen by the environment.
  pub data Step : Machine → Machine → Type 0 where
    step : (q : Machine) (e : Event) → Step q (next q e)

  pub data Reaches (q : Machine) : Machine → Type 0 where
    here : Reaches q q
    then_step : {r t : Machine} → Reaches q r → Step r t → Reaches q t

  pub record IsValid (q : Machine) : Type 0 where
    pub sound : AreSound q.state
    pub ordered : InOrder uuid 0 q.drawn q.state.jobs

  abbrev pub empty_machine : Machine
  empty_machine = record { state = empty_state; drawn = 0 }

  empty_machine-IsValid : IsValid empty_machine
  unfolding empty_state
  empty_machine-IsValid = record { sound = tt; ordered = omega arith }

  next-IsValid : (q : Machine) (e : Event) → IsValid q → IsValid (next q e)
  unfolding next
  next-IsValid q (mutates m now) v = record {
    sound = apply_mutation-AreSound uuid q.state m now q.drawn v.sound;
    ordered = apply_mutation-InOrder uuid q.state m now q.drawn v.ordered;
  }
  next-IsValid q (expires now timeout_ms) v = record {
    sound = expire_heartbeats-AreSound q.state now timeout_ms v.sound;
    ordered = expire_heartbeats-InOrder uuid q.state now timeout_ms q.drawn v.ordered;
  }

  Step-IsValid : {q r : Machine} → Step q r → IsValid q → IsValid r
  Step-IsValid (step q e) v = next-IsValid q e v

  -- Whatever is reached from a valid queue is valid.
  pub Reaches-IsValid : {q r : Machine} → IsValid q → Reaches q r → IsValid r
  Reaches-IsValid v here = v
  Reaches-IsValid v (then_step r s) = Step-IsValid s (Reaches-IsValid v r)

  -- In every queue reached from the empty one all jobs are sound and stand in the order in which
  -- they were enqueued.
  pub reached_from_empty : {q : Machine} → Reaches empty_machine q → IsValid q
  reached_from_empty r = Reaches-IsValid empty_machine-IsValid r

  length-new_jobs :
      (drawn now : ℕ) (inputs : List JobInput)
      → length (new_jobs uuid drawn now inputs) ≡ length inputs
  unfolding new_jobs
  length-new_jobs drawn now [] = refl
  length-new_jobs drawn now (p ∷ inputs) = ap suc (length-new_jobs (suc drawn) now inputs)

  length-replaced :
      {test : Job → _} (jobs : List Job) (f : First test jobs) (job : Job)
      → length (f.before ++ job ∷ f.behind) ≡ length jobs
  length-replaced jobs f job = omega (
    arith,
    ap length f.split,
    length-append f.before (job ∷ f.behind),
    length-append f.before (f.found ∷ f.behind),
  )

  length-removed :
      {test : Job → _} (jobs : List Job) (f : First test jobs)
      → length (f.before ++ f.behind) + 1 ≡ length jobs
  length-removed jobs f = omega (
    arith,
    ap length f.split,
    length-append f.before f.behind,
    length-append f.before (f.found ∷ f.behind),
  )

  apply_mutation-accounted :
      (s : QueueState) (m : Mutation) (now drawn : ℕ)
      → accounted (apply_mutation uuid s m now drawn).state ≡ accounted s + enqueued (mutates m now)
  unfolding apply_mutation enqueue_jobs register_broker
  apply_mutation-accounted s (Mutation.enqueue inputs) now drawn = omega (
    arith,
    length-append s.jobs (new_jobs uuid drawn now inputs),
    length-new_jobs drawn now inputs,
  )
  apply_mutation-accounted s (Mutation.claim w types) now drawn =
      elim (claim_job-first s w now types) [
        | inl (e, _) ↦ rw e (omega arith)
        | inr (f, e) ↦ rw e (omega (arith, length-replaced s.jobs f _))
      ]
  apply_mutation-accounted s (Mutation.heartbeat job_id w) now drawn =
      elim (heartbeat_job-first s job_id w now) [
        | inl (e, _) ↦ rw e (omega arith)
        | inr (f, e) ↦ rw e (omega (arith, length-replaced s.jobs f _))
      ]
  apply_mutation-accounted s (Mutation.complete job_id w) now drawn =
      elim (complete_job-first s job_id w) [
        | inl (e, _) ↦ rw e (omega arith)
        | inr (f, e) ↦ rw e (omega (arith, length-removed s.jobs f))
      ]
  apply_mutation-accounted s (Mutation.register_broker address timestamp) now drawn = omega arith

  -- No event loses a job or makes one up: every job that was there or came in is still there, was
  -- completed, or was given up on by the expiry pass.
  pub next-accounted :
      (q : Machine) (e : Event)
      → accounted (next q e).state + given_up q.state e ≡ accounted q.state + enqueued e
  unfolding next expire_heartbeats
  next-accounted q (mutates m now) = omega (arith, apply_mutation-accounted q.state m now q.drawn)
  next-accounted q (expires now timeout_ms) =
      omega (arith, length-expire_jobs now timeout_ms q.state.jobs)

  unfoldable pub run : Machine → List Event → Machine
  run q [] = q
  run q (e ∷ es) = run (next q e) es

  unfoldable pub total_enqueued : List Event → ℕ
  total_enqueued [] = 0
  total_enqueued (e ∷ es) = enqueued e + total_enqueued es

  unfoldable pub total_given_up : Machine → List Event → ℕ
  total_given_up q [] = 0
  total_given_up q (e ∷ es) = given_up q.state e + total_given_up (next q e) es

  -- Over any history: the jobs still there, those completed and those given up on are together the
  -- jobs that were there or were completed at the start and those enqueued since.
  pub run-accounted :
      (q : Machine) (es : List Event)
      → accounted (run q es).state + total_given_up q es ≡ accounted q.state + total_enqueued es
  unfolding run total_enqueued total_given_up
  run-accounted q [] = refl
  run-accounted q (e ∷ es) = omega (arith, run-accounted (next q e) es, next-accounted q e)
