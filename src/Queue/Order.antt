-- ===== src/Queue/Order.antt =====
-- packages/core/src/state.ts: the order of the jobs and their identifiers.
use osqueue.Base.{
  ℕ, suc, ◌≤◌, ◌<◌, ◌≡◌, refl, ◌∙◌, subst, sym, inl, inr, Bool, ◌≢◌, List, [], ◌∷◌, ◌++◌, arith,
  All, All-map_of, First, Bool-cases,
}
use osqueue.Types.{JobId, Job, QueueState, JobInput, Mutation}
use osqueue.Queue.{
  timed_out, exhausted, expire_jobs, expire_heartbeats, register_broker, new_jobs, drawn_by,
  enqueue_jobs, apply_mutation,
}
use osqueue.Queue.Operations.{claim_job-first, heartbeat_job-first, complete_job-first}

module _ (uuid : ℕ → JobId) where
  -- The identifiers are among those drawn from number `from` on and before number `drawn`, in the
  -- order of the draws.
  abbrev pub InOrder : ℕ → ℕ → List Job → Type 0
  InOrder from drawn [] = from ≤ drawn
  InOrder from drawn (job ∷ jobs) =
      (k : ℕ) × (from ≤ k) × (job.id ≡ uuid k) × InOrder (suc k) drawn jobs

  InOrder-down :
      (from from' drawn : ℕ) (jobs : List Job)
      → from' ≤ from
      → InOrder from drawn jobs
      → InOrder from' drawn jobs
  InOrder-down from from' drawn [] h v = omega arith
  InOrder-down from from' drawn (job ∷ jobs) h (k, le, e, v) = (k, omega arith, e, v)

  pub InOrder-append :
      (from drawn drawn' : ℕ) (jobs more : List Job)
      → InOrder from drawn jobs
      → InOrder drawn drawn' more
      → InOrder from drawn' (jobs ++ more)
  InOrder-append from drawn drawn' [] more v w = InOrder-down drawn from drawn' more v w
  InOrder-append from drawn drawn' (job ∷ jobs) more (k, le, e, v) w =
      (k, le, e, InOrder-append (suc k) drawn drawn' jobs more v w)

  InOrder-replaced :
      (from drawn : ℕ) (before : List Job) (x y : Job) (behind : List Job)
      → y.id ≡ x.id
      → InOrder from drawn (before ++ x ∷ behind)
      → InOrder from drawn (before ++ y ∷ behind)
  InOrder-replaced from drawn [] x y behind h (k, le, e, v) = (k, le, h ∙ e, v)
  InOrder-replaced from drawn (b ∷ before) x y behind h (k, le, e, v) =
      (k, le, e, InOrder-replaced (suc k) drawn before x y behind h v)

  InOrder-removed :
      (from drawn : ℕ) (before : List Job) (x : Job) (behind : List Job)
      → InOrder from drawn (before ++ x ∷ behind)
      → InOrder from drawn (before ++ behind)
  InOrder-removed from drawn [] x behind (k, le, e, v) =
      InOrder-down (suc k) from drawn behind (omega arith) v
  InOrder-removed from drawn (b ∷ before) x behind (k, le, e, v) =
      (k, le, e, InOrder-removed (suc k) drawn before x behind v)

  expire_jobs-InOrder :
      (now timeout_ms from drawn : ℕ) (jobs : List Job)
      → InOrder from drawn jobs
      → InOrder from drawn (expire_jobs now timeout_ms jobs)
  unfolding expire_jobs
  expire_jobs-InOrder now timeout_ms from drawn [] v = v
  expire_jobs-InOrder now timeout_ms from drawn (job ∷ jobs) (k, le, e, v) =
      let rest = expire_jobs-InOrder now timeout_ms (suc k) drawn jobs v in
      elim (Bool-cases (timed_out now timeout_ms job)) [
        | inr h ↦ rw h (k, le, e, rest)
        | inl h ↦ elim (Bool-cases (exhausted job)) [
          | inl x ↦ rw (h, x) (InOrder-down (suc k) from drawn _ (omega arith) rest)
          | inr x ↦ rw (h, x) (k, le, e, rest)
        ]
      ]

  -- The expiry pass keeps the order, whatever it drops.
  pub expire_heartbeats-InOrder :
      (s : QueueState) (now timeout_ms drawn : ℕ)
      → InOrder 0 drawn s.jobs
      → InOrder 0 drawn (expire_heartbeats s now timeout_ms).jobs
  unfolding expire_heartbeats
  expire_heartbeats-InOrder s now timeout_ms drawn v =
      expire_jobs-InOrder now timeout_ms 0 drawn s.jobs v

  new_jobs-InOrder :
      (drawn now : ℕ) (inputs : List JobInput)
      → InOrder drawn (drawn_by uuid drawn inputs) (new_jobs uuid drawn now inputs)
  unfolding new_jobs drawn_by
  new_jobs-InOrder drawn now [] = omega arith
  new_jobs-InOrder drawn now (p ∷ inputs) =
      (drawn, omega arith, refl, new_jobs-InOrder (suc drawn) now inputs)

  -- Every mutation keeps the jobs in the order in which they were enqueued.
  pub apply_mutation-InOrder :
      (s : QueueState) (m : Mutation) (now drawn : ℕ)
      → InOrder 0 drawn s.jobs
      → let a = apply_mutation uuid s m now drawn in InOrder 0 a.drawn a.state.jobs
  unfolding apply_mutation enqueue_jobs register_broker
  apply_mutation-InOrder s (Mutation.enqueue inputs) now drawn v =
      InOrder-append 0 drawn _ s.jobs _ v (new_jobs-InOrder drawn now inputs)
  apply_mutation-InOrder s (Mutation.claim w types) now drawn v =
      elim (claim_job-first s w now types) [
        | inl (e, _) ↦ rw e v
        | inr (f, e) ↦ rw e (
            InOrder-replaced 0 drawn f.before f.found _ f.behind refl
              (subst (InOrder 0 drawn) f.split v))
      ]
  apply_mutation-InOrder s (Mutation.heartbeat job_id w) now drawn v =
      elim (heartbeat_job-first s job_id w now) [
        | inl (e, _) ↦ rw e v
        | inr (f, e) ↦ rw e (
            InOrder-replaced 0 drawn f.before f.found _ f.behind refl
              (subst (InOrder 0 drawn) f.split v))
      ]
  apply_mutation-InOrder s (Mutation.complete job_id w) now drawn v =
      elim (complete_job-first s job_id w) [
        | inl (e, _) ↦ rw e v
        | inr (f, e) ↦
            rw e (
              InOrder-removed 0 drawn f.before f.found f.behind (subst (InOrder 0 drawn) f.split v))
      ]
  apply_mutation-InOrder s (Mutation.register_broker address timestamp) now drawn v = v

  -- Where no identifier is drawn twice, no other job has the identifier of a job that was found.
  module _ (distinct : (i j : ℕ) → uuid i ≡ uuid j → i ≡ j) where
    ids_above :
        (k from drawn : ℕ) (jobs : List Job)
        → k < from
        → InOrder from drawn jobs
        → All (λ job. job.id ≢ uuid k) jobs
    ids_above k from drawn [] h v = tt
    ids_above k from drawn (job ∷ jobs) h (i, le, e, v) = (
      λ p. omega (arith, distinct i k (sym e ∙ p)),
      ids_above k (suc i) drawn jobs (omega arith) v,
    )

    id_at :
        (from drawn : ℕ) (before : List Job) (x : Job) (behind : List Job)
        → InOrder from drawn (before ++ x ∷ behind)
        → (k : ℕ) × (from ≤ k) × (x.id ≡ uuid k)
    id_at from drawn [] x behind (k, le, e, v) = (k, le, e)
    id_at from drawn (b ∷ before) x behind (k, le, e, v) =
        let (i, le', e') = id_at (suc k) drawn before x behind v in (i, omega arith, e')

    differ_from :
        (from drawn : ℕ) (before : List Job) (x : Job) (behind : List Job)
        → InOrder from drawn (before ++ x ∷ behind)
        → All (λ job. job.id ≢ x.id) before × All (λ job. job.id ≢ x.id) behind
    differ_from from drawn [] x behind (k, le, e, v) = (
      tt,
      All-map_of (λ job. job.id ≢ uuid k) (λ job. job.id ≢ x.id) behind (λ job n p. n (p ∙ e))
          (ids_above k (suc k) drawn behind (omega arith) v),
    )
    differ_from from drawn (b ∷ before) x behind (k, le, e, v) =
        let (i, le', e') = id_at (suc k) drawn before x behind v in
        let rest = differ_from (suc k) drawn before x behind v in
        ((λ p. omega (arith, distinct k i (sym e ∙ p ∙ e')), rest.0), rest.1)

    pub others_differ :
        {test : Job → Bool} (drawn : ℕ) (jobs : List Job) (f : First test jobs)
        → InOrder 0 drawn jobs
        → All (λ job. job.id ≢ f.found.id) f.before × All (λ job. job.id ≢ f.found.id) f.behind
    others_differ drawn jobs f v =
        differ_from 0 drawn f.before f.found f.behind (subst (InOrder 0 drawn) f.split v)
