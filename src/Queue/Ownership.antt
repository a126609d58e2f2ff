-- ===== src/Queue/Ownership.antt =====
-- packages/core/src/state.ts: who may touch a claimed job.
use osqueue.Base.{
  ℕ, ◌≡◌, ◌∙◌, ap, subst, sym, inl, inr, true, false, ◌≢◌, List, Option, some, String, arith, All,
  All-append, All-map_of, All-right, First, find_index-split, find_index-none, drop_index_at,
  string_eq, option_eq,
}
use osqueue.Types.{JobId, WorkerId, Job, QueueState, ClaimedJob}
use osqueue.Queue.{
  claimable, claimed_by, claim_info, claim_job, held_by, heartbeat_job, heartbeat_found,
  complete_job, complete_found,
}
use osqueue.Queue.Operations.{replaced, removed, claim_job-first}
use osqueue.Queue.Order.{InOrder, others_differ}

-- A claim that returned a job took the first one that it could take.
pub claim_job-some :
    (s t : QueueState) (w : WorkerId) (now : ℕ) (types : Option (List String)) (c : ClaimedJob)
    → claim_job s w now types ≡ (t, some c)
    → (f : First (claimable types) s.jobs) × (t ≡ replaced s f (claimed_by w now f.found))
      × (c ≡ claim_info f.found)
claim_job-some s t w now types c e = elim (claim_job-first s w now types) [
  | inl (e', _) ↦ absurd (cc)
  | inr (f, e') ↦ (f, cc, cc)
]

not-held_by :
    (job_id : JobId) (w : WorkerId) (job : Job) → job.id ≢ job_id → held_by job_id w job ≡ false
not-held_by job_id w job h = ground arith

held_by_other :
    (job_id : JobId) (w w' : WorkerId) (now : ℕ) (job : Job)
    → w' ≢ w
    → held_by job_id w' (claimed_by w now job) ≡ false
held_by_other job_id w w' now job h = ground arith

held_by_self : (w : WorkerId) (now : ℕ) (job : Job) → held_by job.id w (claimed_by w now job) ≡ true
held_by_self w now job = ground arith

complete_job_idle :
    (s : QueueState) (job_id : JobId) (w : WorkerId)
    → All (λ job. held_by job_id w job ≡ false) s.jobs
    → complete_job s job_id w ≡ s
unfolding complete_job complete_found
complete_job_idle s job_id w m = rw (find_index-none (held_by job_id w) s.jobs m)

heartbeat_job_idle :
    (s : QueueState) (job_id : JobId) (w : WorkerId) (now : ℕ)
    → All (λ job. held_by job_id w job ≡ false) s.jobs
    → heartbeat_job s job_id w now ≡ s
unfolding heartbeat_job heartbeat_found
heartbeat_job_idle s job_id w now m = rw (find_index-none (held_by job_id w) s.jobs m)

module _ (uuid : ℕ → JobId) (distinct : (i j : ℕ) → uuid i ≡ uuid j → i ≡ j) where
  module _ (s : QueueState) (drawn : ℕ) (ordered : InOrder uuid 0 drawn s.jobs) (w : WorkerId)
      (now : ℕ) (types : Option (List String)) (f : First (claimable types) s.jobs) where
    differ : All (λ job. job.id ≢ f.found.id) f.before × All (λ job. job.id ≢ f.found.id) f.behind
    differ = others_differ uuid distinct drawn s.jobs f ordered

    taken : QueueState
    taken = replaced s f (claimed_by w now f.found)

    misses_before : (w' : WorkerId) → All (λ job. held_by f.found.id w' job ≡ false) f.before
    misses_before w' =
        All-map_of (λ job. job.id ≢ f.found.id) (λ job. held_by f.found.id w' job ≡ false) f.before
          (not-held_by f.found.id w') differ.0

    misses_behind : (w' : WorkerId) → All (λ job. held_by f.found.id w' job ≡ false) f.behind
    misses_behind w' =
        All-map_of (λ job. job.id ≢ f.found.id) (λ job. held_by f.found.id w' job ≡ false) f.behind
          (not-held_by f.found.id w') differ.1

    complete_taken : complete_job taken f.found.id w ≡ removed s f
    unfolding taken complete_job complete_found
    complete_taken =
        rw
          (find_index-split (held_by f.found.id w) f.before (claimed_by w now f.found) f.behind
            (misses_before w) (held_by_self w now f.found))
          (rw (drop_index_at f.before (claimed_by w now f.found) f.behind))

    nobody_else :
        (w' : WorkerId) → w' ≢ w → All (λ job. held_by f.found.id w' job ≡ false) taken.jobs
    unfolding taken
    nobody_else w' h =
        All-append (λ job. held_by f.found.id w' job ≡ false) f.before _ (misses_before w')
          (held_by_other f.found.id w w' now f.found h, misses_behind w')

    not_claimable_again :
        (types' : Option (List String))
        → All (λ job. claimable types' job ≡ true → job.id ≢ f.found.id) taken.jobs
    unfolding taken
    not_claimable_again types' =
        All-append _ f.before _ (All-map_of _ _ f.before (λ job n _. n) differ.0)
          (λ h. absurd (cc), All-map_of _ _ f.behind (λ job n _. n) differ.1)

  module _ (s t : QueueState) (drawn : ℕ) (w : WorkerId) (now : ℕ) (types : Option (List String))
      (c : ClaimedJob) where
    -- In a queue whose jobs stand in the order in which their identifiers were drawn, none of them
    -- drawn twice: claiming a job and completing it takes exactly that job, the first that could
    -- be claimed, out of the list, and counts one completed job.
    pub complete-claim :
        InOrder uuid 0 drawn s.jobs
        → claim_job s w now types ≡ (t, some c)
        → (f : First (claimable types) s.jobs) × (c ≡ claim_info f.found)
          × (complete_job t c.id w ≡ removed s f)
    unfolding taken
    complete-claim v e =
        let (f, et, ec) = claim_job-some s t w now types c e in
        (f, ec, rw (et, ec) (complete_taken s drawn v w now types f))

    -- In a queue whose jobs stand in the order in which their identifiers were drawn, none of them
    -- drawn twice: after a worker has claimed a job, a heartbeat for it or its completion by any
    -- other worker changes nothing.
    pub others_cannot_touch :
        (w' : WorkerId) (later : ℕ)
        → InOrder uuid 0 drawn s.jobs
        → claim_job s w now types ≡ (t, some c)
        → w' ≢ w
        → (heartbeat_job t c.id w' later ≡ t) × (complete_job t c.id w' ≡ t)
    unfolding taken
    others_cannot_touch w' later v e h =
        let (f, et, ec) = claim_job-some s t w now types c e in
        let m = nobody_else s drawn v w now types f w' h in
        rw (et, ec)
          (heartbeat_job_idle _ f.found.id w' later m, complete_job_idle _ f.found.id w' m)

    -- In a queue whose jobs stand in the order in which their identifiers were drawn, none of them
    -- drawn twice: two claims in a row, by whichever workers, do not return the same job.
    pub claims_differ :
        (u : QueueState) (w' : WorkerId) (later : ℕ) (types' : Option (List String))
        (c' : ClaimedJob)
        → InOrder uuid 0 drawn s.jobs
        → claim_job s w now types ≡ (t, some c)
        → claim_job t w' later types' ≡ (u, some c')
        → c'.id ≢ c.id
    unfolding taken
    claims_differ u w' later types' c' v e e' =
        let (f, et, ec) = claim_job-some s t w now types c e in
        let (g, eu, ec') = claim_job-some t u w' later types' c' e' in
        let all : All (λ job. claimable types' job ≡ true → job.id ≢ f.found.id) t.jobs =
          rw et (not_claimable_again s drawn v w now types f types') in
        let apart = (All-right _ g.before _ (subst (All _) g.split all)).0 g.hit in
        λ p. apart (sym (ap (λ (x : ClaimedJob). x.id) ec') ∙ p ∙ ap (λ (x : ClaimedJob). x.id) ec)
