-- ===== src/Dashboard/Quiet.antt =====
-- What the dashboard of apps/web/app/lib/use-queue.ts logs when nothing has changed.
use osqueue.Base.{
  ℕ, ◌≤◌, ◌≡◌, refl, sym, ap, ◌∙◌, true, false, ◌&&◌, List, [], ◌∷◌, ◌++◌, subst, String, some,
  ◌==◌, string_eq, ==_refl, is_some, arith, All,
}
use mathlib.Core.List.{append_assoc}
use osqueue.Base.Dict.{
  Dict, lookup, insert, count, lookup-insert, count-insert_le, lookup-append, count-append,
}
use osqueue.Types.Errors.{ok}
use osqueue.Broker.Service.{JobInfo, ListJobsResponse}
use osqueue.Dashboard.{
  QueueView, current_jobs, new_notices, changes, change_notices, notices_of, stamp, log_events,
  poll,
}

-- The broker gives each job that it lists a status.
abbrev pub HasStatus : JobInfo → Type 0
HasStatus job = (job.status == "") ≡ false

current_jobs-keeps :
    (k : String) (d : Dict String) (jobs : List JobInfo)
    → is_some (lookup k d) ≡ true
    → is_some (lookup k (current_jobs d jobs)) ≡ true
unfolding current_jobs
current_jobs-keeps k d [] h = h
current_jobs-keeps k d (job ∷ jobs) h =
    current_jobs-keeps k (insert job.id job.status d) jobs
      (rw (lookup-insert k job.id job.status d) (ground (arith, h)))

current_jobs-has :
    (d : Dict String) (jobs : List JobInfo)
    → All (λ job. is_some (lookup job.id (current_jobs d jobs)) ≡ true) jobs
unfolding current_jobs
current_jobs-has d [] = tt
current_jobs-has d (job ∷ jobs) = (
  current_jobs-keeps job.id (insert job.id job.status d) jobs
      (rw (lookup-insert job.id job.id job.status d, ==_refl job.id) refl),
  current_jobs-has (insert job.id job.status d) jobs,
)

new_notices-none :
    (d : Dict String) (jobs : List JobInfo)
    → All (λ job. is_some (lookup job.id d) ≡ true) jobs
    → new_notices d jobs ≡ []
unfolding new_notices
new_notices-none d [] h = refl
new_notices-none d (job ∷ jobs) (e, h) = rw e (new_notices-none d jobs h)

current_jobs-count :
    (k : String) (d : Dict String) (jobs : List JobInfo)
    → count k d ≤ 1
    → count k (current_jobs d jobs) ≤ 1
unfolding current_jobs
current_jobs-count k d [] h = h
current_jobs-count k d (job ∷ jobs) h =
    current_jobs-count k (insert job.id job.status d) jobs (count-insert_le k job.id job.status d h)

insert-HasStatus :
    (k v : String) (d : Dict String)
    → (v == "") ≡ false
    → All (λ e. (e.1 == "") ≡ false) d
    → All (λ e. (e.1 == "") ≡ false) (insert k v d)
unfolding insert
insert-HasStatus k v [] e h = (e, tt)
insert-HasStatus k v ((j, w) ∷ d) e (e', h) = ground (arith, insert-HasStatus k v d e h)

current_jobs-HasStatus :
    (d : Dict String) (jobs : List JobInfo)
    → All HasStatus jobs
    → All (λ e. (e.1 == "") ≡ false) d
    → All (λ e. (e.1 == "") ≡ false) (current_jobs d jobs)
unfolding current_jobs
current_jobs-HasStatus d [] h g = g
current_jobs-HasStatus d (job ∷ jobs) (e, h) g =
    current_jobs-HasStatus (insert job.id job.status d) jobs h
      (insert-HasStatus job.id job.status d e g)

statuses_differ : (◌==◌ {A = String} "unclaimed" "in_progress") ≡ false
unfolding string_eq
statuses_differ = refl

not_both : (v : String) → (v == "unclaimed" && v == "in_progress") ≡ false
not_both v = ground (arith, statuses_differ)

change_notices-none :
    (k v : String) (jobs : List JobInfo) → (v == "") ≡ false → change_notices k v (some v) jobs ≡ []
unfolding change_notices
change_notices-none k v jobs e = rw (e, not_both v) refl

once-before :
    (k v : String) (before d : Dict String)
    → count k (before ++ (k, v) ∷ d) ≤ 1
    → count k before ≡ 0
once-before k v before d h = ground (arith, h, count-append k before ((k, v) ∷ d), ==_refl k)

lookup-once :
    (k v : String) (before d : Dict String)
    → count k (before ++ (k, v) ∷ d) ≤ 1
    → lookup k (before ++ (k, v) ∷ d) ≡ some v
unfolding lookup
lookup-once k v before d h =
    lookup-append k before ((k, v) ∷ d) (once-before k v before d h) ∙ rw (==_refl k) refl

changes-none :
    (before d : Dict String) (jobs : List JobInfo)
    → ((k : String) → count k (before ++ d) ≤ 1)
    → All (λ e. (e.1 == "") ≡ false) d
    → changes (before ++ d) d jobs ≡ []
unfolding changes
changes-none before [] jobs once h = refl
changes-none before ((k, v) ∷ d) jobs once (e, h) =
    ap (λ c. change_notices k v c jobs ++ changes (before ++ (k, v) ∷ d) d jobs)
      (lookup-once k v before d (once k))
    ∙ ap (λ ns. ns ++ changes (before ++ (k, v) ∷ d) d jobs) (change_notices-none k v jobs e)
    ∙ subst (λ all. changes all d jobs ≡ []) (append_assoc before ((k, v) ∷ []) d)
        (changes-none (before ++ (k, v) ∷ []) d jobs
          (λ j. subst (λ all. count j all ≤ 1) (sym (append_assoc before ((k, v) ∷ []) d)) (once j))
          h)

-- A listing that was polled before has no news, if its jobs have a status.
notices_of-again :
    (res : ListJobsResponse) (v : QueueView)
    → v.prev_jobs ≡ current_jobs [] res.jobs
    → v.prev_total ≡ res.completed_total
    → All HasStatus res.jobs
    → notices_of res v ≡ []
unfolding notices_of
notices_of-again res v seen counted h =
    let added =
      new_notices-none (current_jobs [] res.jobs) res.jobs (current_jobs-has [] res.jobs) in
    let changed =
      changes-none [] (current_jobs [] res.jobs) res.jobs
        (λ k. current_jobs-count k [] res.jobs (omega arith))
        (current_jobs-HasStatus [] res.jobs h tt) in
    rw (seen, counted, added, changed) (ground arith)

module _ (uuid : ℕ → String) where
  -- When the broker lists the same jobs again, each with a status, and has completed no more, the
  -- dashboard logs nothing: it is as after the first of the two polls.
  pub poll-poll :
      (now later : ℕ) (res : ListJobsResponse) (v : QueueView)
      → All HasStatus res.jobs
      → poll uuid later (ok res) (poll uuid now (ok res) v) ≡ poll uuid now (ok res) v
  unfolding poll log_events stamp
  poll-poll now later res v h =
      rw (notices_of-again res (poll uuid now (ok res) v) refl refl h) (ground arith)
