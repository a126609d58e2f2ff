-- ===== src/Worker/Counting.antt =====
-- Tasks of the worker by their place, and how many of them have a job at work.
use osqueue.Base.{
  Bool-cases, subst, ℕ, zero, suc, ◌+◌, ◌≡◌, refl, sym, ap, ◌∙◌, ◌⊎◌, inl, inr, String, Bool, true,
  List, [], ◌∷◌, ◌++◌, Option, none, some, arith, get_elem?, set, keep, All,
}
use osqueue.Types.{JobId}
use osqueue.Worker.{
  Task, claiming, reconnecting, ended, discarding, handling, completing, aborted_task, abort_at,
  abort_all,
}

-- The job that is with its handler, or waits for its completion.
abbrev pub job_of : Task → Option JobId
job_of (handling job aborted) = some job.job_id
job_of (completing job aborted) = some job.job_id
job_of claiming = none
job_of reconnecting = none
job_of ended = none
job_of (discarding job) = none

abbrev pub weight : Task → ℕ
weight (handling job aborted) = 1
weight (completing job aborted) = 1
weight claiming = 0
weight reconnecting = 0
weight ended = 0
weight (discarding job) = 0

abbrev pub at_work : List Task → ℕ
at_work [] = 0
at_work (t ∷ ts) = weight t + at_work ts

abbrev pub job_at : List Task → ℕ → Option JobId
job_at [] j = none
job_at (t ∷ ts) zero = job_of t
job_at (t ∷ ts) (suc j) = job_at ts j

pub at_work-set :
    (ts : List Task) (i : ℕ) (t t' : Task)
    → get_elem? ts i ≡ some t
    → at_work (set ts i t') + weight t ≡ at_work ts + weight t'
at_work-set [] i t t' e = absurd (cc)
at_work-set (u ∷ ts) zero t t' e = let same : u ≡ t = (cc) in rw same (omega arith)
at_work-set (u ∷ ts) (suc i) t t' e = omega (arith, at_work-set ts i t t' e)

pub at_work-append : (ts : List Task) (t : Task) → at_work (ts ++ t ∷ []) ≡ at_work ts + weight t
at_work-append [] t = omega arith
at_work-append (u ∷ ts) t = omega (arith, at_work-append ts t)

pub job_at-append :
    (ts : List Task) (t : Task) (j : ℕ) (id : JobId)
    → job_at ts j ≡ some id
    → job_at (ts ++ t ∷ []) j ≡ some id
job_at-append [] t j id e = absurd (cc)
job_at-append (u ∷ ts) t zero id e = e
job_at-append (u ∷ ts) t (suc j) id e = job_at-append ts t j id e

pub job_at-set :
    (ts : List Task) (i j : ℕ) (t t' : Task)
    → get_elem? ts i ≡ some t
    → (i ≡ j) × (job_at ts j ≡ job_of t) × (job_at (set ts i t') j ≡ job_of t')
      ⊎ (job_at (set ts i t') j ≡ job_at ts j)
job_at-set [] i j t t' e = absurd (cc)
job_at-set (u ∷ ts) zero zero t t' e = inl (refl, ap job_of (cc), refl)
job_at-set (u ∷ ts) zero (suc j) t t' e = inr refl
job_at-set (u ∷ ts) (suc i) zero t t' e = inr refl
job_at-set (u ∷ ts) (suc i) (suc j) t t' e = elim (job_at-set ts i j t t' e) [
  | inl (same, p, q) ↦ inl (ap suc same, p, q)
  | inr q ↦ inr q
]

pub job_at-there :
    (ts : List Task) (i : ℕ) (t t' : Task)
    → get_elem? ts i ≡ some t
    → job_at (set ts i t') i ≡ job_of t'
job_at-there [] i t t' e = absurd (cc)
job_at-there (u ∷ ts) zero t t' e = refl
job_at-there (u ∷ ts) (suc i) t t' e = job_at-there ts i t t' e

aborted_task_lem :
    (t : Task) → (job_of (aborted_task t) ≡ job_of t) × (weight (aborted_task t) ≡ weight t)
aborted_task_lem (handling job aborted) = (refl, refl)
aborted_task_lem (completing job aborted) = (refl, refl)
aborted_task_lem claiming = (refl, refl)
aborted_task_lem reconnecting = (refl, refl)
aborted_task_lem ended = (refl, refl)
aborted_task_lem (discarding job) = (refl, refl)

abort_at_lem :
    (ts : List Task) (i : ℕ) (j : ℕ) (t : Option Task)
    → get_elem? ts i ≡ t
    → (at_work (abort_at ts i t) ≡ at_work ts) × (job_at (abort_at ts i t) j ≡ job_at ts j)
unfolding abort_at
abort_at_lem ts i j none e = (refl, refl)
abort_at_lem ts i j (some t) e =
    let (same_job, same_weight) = aborted_task_lem t in
    (
      omega (arith, same_weight, at_work-set ts i t (aborted_task t) e),
      elim (job_at-set ts i j t (aborted_task t) e) [
        | inl (at, p, q) ↦ q ∙ same_job ∙ sym p
        | inr q ↦ q
      ],
    )

-- Aborting takes no job from a task.
pub abort_all_lem :
    (controllers : List (String × ℕ)) (ts : List Task) (j : ℕ)
    → (at_work (abort_all controllers ts) ≡ at_work ts)
      × (job_at (abort_all controllers ts) j ≡ job_at ts j)
unfolding abort_all
abort_all_lem [] ts j = (refl, refl)
abort_all_lem ((id, i) ∷ rest) ts j =
    let (w, p) = abort_at_lem ts i j (get_elem? ts i) refl in
    let (w', p') = abort_all_lem rest (abort_at ts i (get_elem? ts i)) j in (w' ∙ w, p' ∙ p)

module _ {ℓ} {A : Type ℓ} where
  pub All-keep :
      (P Q : A → Type ℓ) (test : A → Bool) (xs : List A)
      → ((x : A) → test x ≡ true → P x → Q x)
      → All P xs
      → All Q (keep test xs)
  All-keep P Q test [] f h = tt
  All-keep P Q test (x ∷ xs) f (p, h) = elim (Bool-cases (test x)) [
    | inl c ↦ rw (c, keep) (f x c p, All-keep P Q test xs f h)
    | inr c ↦ rw (c, keep) (All-keep P Q test xs f h)
  ]

  pub All-to : (P Q : A → Type ℓ) (xs : List A) → ((x : A) → P x → Q x) → All P xs → All Q xs
  All-to P Q [] f h = tt
  All-to P Q (x ∷ xs) f (p, h) = (f x p, All-to P Q xs f h)

  pub All-at :
      (P : A → Type ℓ) (xs : List A) (k : ℕ) (x : A) → All P xs → get_elem? xs k ≡ some x → P x
  All-at P [] k x h e = absurd (cc)
  All-at P (y ∷ xs) zero x (p, h) e = let same : y ≡ x = (cc) in subst P same p
  All-at P (y ∷ xs) (suc k) x (p, h) e = All-at P xs k x h e
