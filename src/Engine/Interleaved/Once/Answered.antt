-- ===== src/Engine/Interleaved/Once/Answered.antt =====
-- How the promises of a run and of the engine change when the run goes on: the whole of a step of
-- packages/core/src/group-commit.ts between two `await`s.
use osqueue.Base.{
  ℕ, ◌+◌, ◌≡◌, refl, ap, ◌∙◌, inl, inr, ◌&&◌, List, [], ◌∷◌, ◌++◌, some, arith, Bool-cases, length,
  ltb,
}
use osqueue.Types.{JobId, StorageVersion}
use osqueue.Types.Errors.{Result, ok, thrown, is_cas_conflict}
use osqueue.Queue.{empty_state}
use osqueue.Engine.{Codec, Options, Pending, Engine, wrap_engine, schedule_loop, reject_all}
use osqueue.Engine.Commit.Tickets.{tickets, settled_tickets}
use osqueue.Engine.Interleaved.{
  Run, creating, recovering, refreshing, writing, backing_off, returning, over, Answer, read_answer,
  version_answer, go_on, cache_answer, refreshed, reschedule_after, loop_returned, ensured, created,
  answer_run, begin_process,
}
use osqueue.Engine.Interleaved.Once.{
  Fits, occurrences, is_settled, waits, with_run, Balanced, SamePromises, rejected_all,
  Balanced-from, refreshed-Balanced, write_answered-Balanced, begin_attempt-Balanced,
  cache_answer-SamePromises,
}

module _ (n : ℕ) (uuid : ℕ → JobId) (K : Codec) (o : Options) where
  reschedule_after-SamePromises :
      (g : Engine) → SamePromises n uuid K o g (reschedule_after uuid K o g)
  unfolding reschedule_after schedule_loop
  reschedule_after-SamePromises g = elim (Bool-cases (g.running && ltb 0 (length g.buffer))) [
    | inl e ↦ rw e (refl, refl, refl)
    | inr e ↦ rw e (elim (Bool-cases g.running) [
      | inl f ↦ rw f (refl, refl, refl)
      | inr f ↦ rw f (refl, refl, refl)
    ])
  ]

  Balanced-to :
      (k : ℕ) (g h h' : Engine) (run : Run)
      → SamePromises n uuid K o h h'
      → Balanced n k g (h, run)
      → Balanced n k g (h', run)
  Balanced-to k g h h' run (s, b, t) (e, f, fits) = (
    ap (λ l. occurrences n (settled_tickets l) + waits n h' + with_run n run) s
        ∙ ap (λ l. is_settled n h + occurrences n (tickets l) + with_run n run) b
        ∙ e,
    t ∙ f,
    fits,
  )

  loop_returned-Balanced :
      (r : Result (Unit {0})) (batch : List Pending) (g : Engine)
      → Balanced n (occurrences n (tickets batch)) g (loop_returned uuid K o r g, over batch)
  unfolding loop_returned
  loop_returned-Balanced (ok _) batch g =
      Balanced-to (occurrences n (tickets batch)) g g (reschedule_after uuid K o g) (over batch)
        (reschedule_after-SamePromises g) (refl, refl, tt)
  loop_returned-Balanced (thrown e) batch g =
      let h : Engine = record g {
        buffer = [];
        settled = g.settled ++ reject_all (wrap_engine e) g.buffer;
      } in
      Balanced-to (occurrences n (tickets batch)) g h (reschedule_after uuid K o h) (over batch)
        (reschedule_after-SamePromises h)
        (omega (arith, rejected_all n (wrap_engine e) g.buffer g.settled), refl, tt)

  ensured-Balanced : (r : Result (Unit {0})) (g : Engine) → Balanced n 0 g (ensured uuid K o (r, g))
  unfolding ensured schedule_loop
  ensured-Balanced (ok _) g = (refl, refl, tt)
  ensured-Balanced (thrown e) g = (refl, refl, tt)

  created-Balanced :
      (v : Result StorageVersion) (g : Engine) → Balanced n 0 g (created uuid K o v g)
  unfolding created
  created-Balanced (ok v) g =
      ensured-Balanced (ok tt)
        (record g { cached_state = some empty_state; cached_version = some v })
  created-Balanced (thrown e) g = elim (Bool-cases (is_cas_conflict e)) [
    | inl c ↦ rw (c, created) (refl, refl, tt)
    | inr c ↦ rw (c, created) (ensured-Balanced (thrown (wrap_engine e)) g)
  ]

  pub answer_run-Balanced :
      (now : ℕ) (a : Answer uuid K o) (g : Engine) (run : Run)
      → Fits run
      → Balanced n (with_run n run) g (answer_run uuid K o now a g run)
  unfolding answer_run
  answer_run-Balanced now (version_answer v) g creating h = created-Balanced v g
  answer_run-Balanced now (read_answer r) g creating h = (refl, refl, tt)
  answer_run-Balanced now go_on g creating h = (refl, refl, tt)
  answer_run-Balanced now (read_answer r) g recovering h =
      let (x, g') = cache_answer uuid K o r g in
      Balanced-from n uuid K o 0 g g' (ensured uuid K o (x, g'))
        (cache_answer-SamePromises n uuid K o r g) (ensured-Balanced x g')
  answer_run-Balanced now (version_answer v) g recovering h = (refl, refl, tt)
  answer_run-Balanced now go_on g recovering h = (refl, refl, tt)
  answer_run-Balanced now (read_answer r) g (refreshing batch retries) h =
      let (x, g') = cache_answer uuid K o r g in
      Balanced-from n uuid K o (occurrences n (tickets batch)) g g'
        (refreshed uuid K o batch retries now (x, g')) (cache_answer-SamePromises n uuid K o r g)
        (refreshed-Balanced n uuid K o batch retries now x g')
  answer_run-Balanced now (version_answer v) g (refreshing batch retries) h = (refl, refl, tt)
  answer_run-Balanced now go_on g (refreshing batch retries) h = (refl, refl, tt)
  answer_run-Balanced now (version_answer v) g (writing batch retries b version) h =
      write_answered-Balanced n uuid K o batch retries b v g h
  answer_run-Balanced now (read_answer r) g (writing batch retries b version) h = (refl, refl, h)
  answer_run-Balanced now go_on g (writing batch retries b version) h = (refl, refl, h)
  answer_run-Balanced now go_on g (backing_off batch retries) h =
      begin_attempt-Balanced n uuid K o batch retries now g
  answer_run-Balanced now (version_answer v) g (backing_off batch retries) h = (refl, refl, tt)
  answer_run-Balanced now (read_answer r) g (backing_off batch retries) h = (refl, refl, tt)
  answer_run-Balanced now go_on g (returning r batch) h = loop_returned-Balanced r batch g
  answer_run-Balanced now (version_answer v) g (returning r batch) h = (refl, refl, tt)
  answer_run-Balanced now (read_answer x) g (returning r batch) h = (refl, refl, tt)
  answer_run-Balanced now (version_answer v) g (over batch) h = (refl, refl, tt)
  answer_run-Balanced now (read_answer x) g (over batch) h = (refl, refl, tt)
  answer_run-Balanced now go_on g (over batch) h = (refl, refl, tt)

  pub begin_process-Balanced :
      (batch : List Pending) (now : ℕ) (g : Engine)
      → g.buffer ≡ batch
      → Balanced n 0 g (begin_process uuid K o batch now g)
  unfolding begin_process
  begin_process-Balanced [] now g e = (omega arith, refl, tt)
  begin_process-Balanced (pm ∷ batch) now g e =
      let (same, next_same, fits) =
        begin_attempt-Balanced n uuid K o (pm ∷ batch) o.max_retries now
          (record g { buffer = [] }) in
      let took : waits n g ≡ occurrences n (tickets (pm ∷ batch)) =
        ap (λ l. occurrences n (tickets l)) e in
      (omega (arith, same, took), next_same, fits)
