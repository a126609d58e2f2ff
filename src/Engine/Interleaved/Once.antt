-- ===== src/Engine/Interleaved/Once.antt =====
-- Where the promises of packages/core/src/group-commit.ts are, settled, in the buffer, or with the run that
-- took them, and how an attempt of `processBuffer` moves them.
pub mod Answered
use osqueue.Base.{
  ℕ, zero, suc, ◌+◌, ◌≡◌, refl, ap, ◌∙◌, inl, inr, ◌&&◌, List, [], ◌∷◌, ◌++◌, Option, none, some,
  arith, Bool-cases, length, nat_eq, ltb, is_some, if◌then◌else◌,
}
use osqueue.Types.{JobId, StorageVersion, QueueState}
use osqueue.Types.Errors.{Thrown, Result, ok, thrown, is_cas_conflict}
use osqueue.Queue.{empty_state}
use osqueue.Storage.{StorageReadResult}
use osqueue.Engine.{
  Codec, Options, Pending, Engine, Batched, wrap_engine, schedule_loop, reject_all, resolve_all,
  Settlement,
}
use osqueue.Engine.Commit.Coherence.{Result-cases}
use osqueue.Engine.Commit.Tickets.{
  tickets, settled_tickets, settled_tickets-append, settled_tickets-reject_all,
  settled_tickets-resolve_all,
}
use osqueue.Engine.Interleaved.{
  Run, creating, recovering, refreshing, writing, backing_off, returning, over, Answer, read_answer,
  version_answer, go_on, cache_answer, prepare, begin_attempt, refreshed, give_up, conflicted,
  write_answered, reschedule_after, loop_returned, ensured, created, answer_run, begin_process,
}

-- The promises that a run has taken and not settled.
abbrev pub batch_of : Run → List Pending
batch_of creating = []
batch_of recovering = []
batch_of (refreshing batch retries) = batch
batch_of (writing batch retries b version) = batch
batch_of (backing_off batch retries) = batch
batch_of (returning r batch) = batch
batch_of (over batch) = batch

-- A pass has a result for each promise of its batch.
abbrev pub Fits : Run → Type 0
Fits (writing batch retries b version) =
    settled_tickets (resolve_all batch b.results) ≡ tickets batch
Fits creating = Unit {0}
Fits recovering = Unit {0}
Fits (refreshing batch retries) = Unit {0}
Fits (backing_off batch retries) = Unit {0}
Fits (returning r batch) = Unit {0}
Fits (over batch) = Unit {0}

-- How often a number occurs.
abbrev pub occurrences : ℕ → List ℕ → ℕ
occurrences n [] = 0
occurrences n (m ∷ ms) = (if nat_eq m n then 1 else 0) + occurrences n ms

pub occurrences-append :
    (n : ℕ) (xs ys : List ℕ) → occurrences n (xs ++ ys) ≡ occurrences n xs + occurrences n ys
occurrences-append n [] ys = omega arith
occurrences-append n (x ∷ xs) ys = omega (arith, occurrences-append n xs ys)

module _ (n : ℕ) where
  abbrev pub is_settled : Engine → ℕ
  is_settled g = occurrences n (settled_tickets g.settled)

  abbrev pub waits : Engine → ℕ
  waits g = occurrences n (tickets g.buffer)

  abbrev pub with_run : Run → ℕ
  with_run run = occurrences n (tickets (batch_of run))

  abbrev pub with_runs : List Run → ℕ
  with_runs [] = 0
  with_runs (run ∷ runs) = with_run run + with_runs runs

  -- `in_run` promises are with the run before, and the run afterwards fits.
  abbrev pub Balanced : ℕ → Engine → Engine × Run → Type 0
  Balanced in_run g (g', run) =
      (is_settled g' + waits g' + with_run run ≡ is_settled g + waits g + in_run)
      × (g'.next_ticket ≡ g.next_ticket)
      × Fits run

  pub rejected_all :
      (e : Thrown) (batch : List Pending) (xs : List (ℕ × Settlement))
      → occurrences n (settled_tickets (xs ++ reject_all e batch))
        ≡ occurrences n (settled_tickets xs) + occurrences n (tickets batch)
  rejected_all e batch xs =
      ap (occurrences n) (settled_tickets-append xs (reject_all e batch))
      ∙ occurrences-append n (settled_tickets xs) (settled_tickets (reject_all e batch))
      ∙ ap (λ l. occurrences n (settled_tickets xs) + occurrences n l)
          (settled_tickets-reject_all e batch)

  module _ (uuid : ℕ → JobId) (K : Codec) (o : Options) where
    prepare-Balanced :
        (batch : List Pending) (retries now : ℕ) (g : Engine) (c : Option QueueState)
        (v : Option StorageVersion)
        → Balanced (occurrences n (tickets batch)) g (prepare uuid K o batch retries now g c v)
    unfolding prepare
    prepare-Balanced batch retries now g (some c) (some v) =
        (refl, refl, settled_tickets-resolve_all uuid batch now _ g.drawn)
    prepare-Balanced batch retries now g (some c) none = (refl, refl, tt)
    prepare-Balanced batch retries now g none v = (refl, refl, tt)

    pub begin_attempt-Balanced :
        (batch : List Pending) (retries now : ℕ) (g : Engine)
        → Balanced (occurrences n (tickets batch)) g (begin_attempt uuid K o batch retries now g)
    unfolding begin_attempt
    begin_attempt-Balanced batch retries now g =
        elim (Bool-cases (is_some g.cached_state && is_some g.cached_version)) [
          | inl e ↦
              rw (e, begin_attempt)
                (prepare-Balanced batch retries now g g.cached_state g.cached_version)
          | inr e ↦ rw (e, begin_attempt) (refl, refl, tt)
        ]

    -- The cache alone changes.
    abbrev pub SamePromises : Engine → Engine → Type 0
    SamePromises g g' =
        (g'.settled ≡ g.settled) × (g'.buffer ≡ g.buffer) × (g'.next_ticket ≡ g.next_ticket)

    pub cache_answer-SamePromises :
        (r : Result (Option (StorageReadResult K.Bytes))) (g : Engine)
        → SamePromises g (cache_answer uuid K o r g).1
    unfolding cache_answer
    cache_answer-SamePromises (thrown e) g = (refl, refl, refl)
    cache_answer-SamePromises (ok none) g = (refl, refl, refl)
    cache_answer-SamePromises (ok (some r)) g = elim (Result-cases (K.decode r.bytes)) [
      | inl (c, e) ↦ rw (e, cache_answer) (refl, refl, refl)
      | inr (x, e) ↦ rw (e, cache_answer) (refl, refl, refl)
    ]

    pub Balanced-from :
        (k : ℕ) (g h : Engine) (x : Engine × Run)
        → SamePromises g h
        → Balanced k h x
        → Balanced k g x
    Balanced-from k g h (g', run) (s, b, t) (e, f, fits) = (
      e
          ∙ ap (λ l. occurrences n (settled_tickets l) + waits h + k) s
          ∙ ap (λ l. is_settled g + occurrences n (tickets l) + k) b,
      f ∙ t,
      fits,
    )

    pub refreshed-Balanced :
        (batch : List Pending) (retries now : ℕ) (r : Result (Unit {0})) (g : Engine)
        → Balanced (occurrences n (tickets batch)) g (refreshed uuid K o batch retries now (r, g))
    unfolding refreshed
    refreshed-Balanced batch retries now (thrown e) g = (refl, refl, tt)
    refreshed-Balanced batch retries now (ok _) g =
        prepare-Balanced batch retries now g g.cached_state g.cached_version

    pub give_up-Balanced :
        (e : Thrown) (batch : List Pending) (g : Engine)
        → Balanced (occurrences n (tickets batch)) g (give_up uuid K o e batch g)
    unfolding give_up
    give_up-Balanced e batch g =
        (omega (arith, rejected_all (wrap_engine e) batch g.settled), refl, tt)

    conflicted-Balanced :
        (e : Thrown) (batch : List Pending) (retries : ℕ) (g : Engine)
        → Balanced (occurrences n (tickets batch)) g (conflicted uuid K o e batch retries g)
    unfolding conflicted
    conflicted-Balanced e batch zero g = give_up-Balanced e batch g
    conflicted-Balanced e batch (suc retries) g = (refl, refl, tt)

    pub write_answered-Balanced :
        (batch : List Pending) (retries : ℕ) (b : Batched) (v : Result StorageVersion) (g : Engine)
        → settled_tickets (resolve_all batch b.results) ≡ tickets batch
        → Balanced (occurrences n (tickets batch)) g (write_answered uuid K o batch retries b v g)
    unfolding write_answered
    write_answered-Balanced batch retries b (ok v) g fits =
        let added : is_settled (record g { settled = g.settled ++ resolve_all batch b.results })
            ≡ is_settled g + occurrences n (tickets batch) =
          ap (occurrences n) (settled_tickets-append g.settled (resolve_all batch b.results))
          ∙ occurrences-append n (settled_tickets g.settled)
              (settled_tickets (resolve_all batch b.results))
          ∙ ap (λ l. is_settled g + occurrences n l) fits in
        (omega (arith, added), refl, tt)
    write_answered-Balanced batch retries b (thrown e) g fits =
        elim (Bool-cases (is_cas_conflict e)) [
          | inl c ↦
              rw (c, write_answered)
                (conflicted-Balanced e batch retries (record g { cached_version = none }))
          | inr c ↦ rw (c, write_answered) (give_up-Balanced e batch g)
        ]
