-- ===== src/Engine/Interleaved/Accounted.antt =====
-- Where a promise of packages/core/src/group-commit.ts is, over whole sequences of events.
use osqueue.Base.{
  ℕ, zero, suc, ◌+◌, ◌≡◌, refl, ap, sym, ◌∙◌, inl, inr, Bool, true, false, ◌&&◌, List, [], ◌∷◌,
  ◌++◌, Option, none, some, arith, Bool-cases, All, length, nat_eq, ltb, if◌then◌else◌, get_elem?,
  set,
}
use osqueue.Types.{JobId, Mutation}
use osqueue.Engine.{
  Codec, Options, Pending, Engine, schedule_loop, engine_error, submit, stop, new_engine,
}
use osqueue.Engine.Commit.Tickets.{tickets, tickets-append}
use osqueue.Engine.Interleaved.{
  Run, creating, Runtime, Answer, answer_run, begin_process, add_run, put_run, Event, starts,
  submits, stops, fires, answers, fire, answer_at, next, run_events,
}
use osqueue.Engine.Interleaved.Once.{
  Fits, occurrences, occurrences-append, is_settled, waits, with_run, with_runs, Balanced,
  rejected_all,
}
use osqueue.Engine.Interleaved.Once.Answered.{answer_run-Balanced, begin_process-Balanced}

with_runs-append :
    (n : ℕ) (runs : List Run) (run : Run)
    → with_runs n (runs ++ run ∷ []) ≡ with_runs n runs + with_run n run
with_runs-append n [] run = omega arith
with_runs-append n (r ∷ runs) run = omega (arith, with_runs-append n runs run)

with_runs-set :
    (n : ℕ) (runs : List Run) (i : ℕ) (run run' : Run)
    → get_elem? runs i ≡ some run
    → with_runs n (set runs i run') + with_run n run ≡ with_runs n runs + with_run n run'
with_runs-set n [] i run run' e = absurd (cc)
with_runs-set n (r ∷ runs) zero run run' e = let same : r ≡ run = (cc) in rw same (omega arith)
with_runs-set n (r ∷ runs) (suc i) run run' e = omega (arith, with_runs-set n runs i run run' e)

Fits-append : (runs : List Run) (run : Run) → All Fits runs → Fits run → All Fits (runs ++ run ∷ [])
Fits-append [] run h k = (k, tt)
Fits-append (r ∷ runs) run (h, hs) k = (h, Fits-append runs run hs k)

Fits-set :
    (runs : List Run) (i : ℕ) (run : Run) → All Fits runs → Fits run → All Fits (set runs i run)
Fits-set [] i run h k = tt
Fits-set (r ∷ runs) zero run (h, hs) k = (k, hs)
Fits-set (r ∷ runs) (suc i) run (h, hs) k = (h, Fits-set runs i run hs k)

get_elem?-Fits :
    (runs : List Run) (i : ℕ) (run : Run) → All Fits runs → get_elem? runs i ≡ some run → Fits run
get_elem?-Fits [] i run h e = absurd (cc)
get_elem?-Fits (r ∷ runs) zero run (h, hs) e = let same : r ≡ run = (cc) in rw (sym same) h
get_elem?-Fits (r ∷ runs) (suc i) run (h, hs) e = get_elem?-Fits runs i run hs e

module _ (n : ℕ) where
  -- The promise with the number `n` is in one place, if it was given out, and in none otherwise.
  abbrev pub InOnePlace : Runtime → Type 0
  InOnePlace t =
      is_settled n t.engine + waits n t.engine + with_runs n t.runs
      ≡ (if ltb n t.engine.next_ticket then 1 else 0)

  abbrev IsTracked : Runtime → Type 0
  IsTracked t = InOnePlace t × All Fits t.runs

  if-IsTracked :
      (b : Bool) (t u : Runtime) → IsTracked t → IsTracked u → IsTracked (if b then t else u)
  if-IsTracked true t u h k = h
  if-IsTracked false t u h k = k

  submit-waits :
      (m : Mutation) (g : Engine)
      → let g' = submit m g in
        (is_settled n g' ≡ is_settled n g)
        × (waits n g' ≡ waits n g + (if nat_eq g.next_ticket n then 1 else 0))
        × (g'.next_ticket ≡ suc g.next_ticket)
  unfolding submit schedule_loop
  submit-waits m g =
      let pm : Pending = record { ticket = g.next_ticket; mutation = m } in
      let longer : occurrences n (tickets (g.buffer ++ pm ∷ []))
          ≡ waits n g + (if nat_eq g.next_ticket n then 1 else 0) =
        ap (occurrences n) (tickets-append g.buffer (pm ∷ []))
        ∙ occurrences-append n (tickets g.buffer) (g.next_ticket ∷ [])
        ∙ omega arith in
      elim (Bool-cases (g.running && nat_eq (length (g.buffer ++ pm ∷ [])) 1)) [
        | inl e ↦ rw e (refl, longer, refl)
        | inr e ↦ rw e (refl, longer, refl)
      ]

  submit-InOnePlace :
      (m : Mutation) (t : Runtime)
      → InOnePlace t
      → InOnePlace (record t { engine = submit m t.engine })
  submit-InOnePlace m t h =
      let (settled, longer, counted) = submit-waits m t.engine in
      rw (settled, longer, counted) (ground (arith, h))

  stop-InOnePlace : (t : Runtime) → InOnePlace t → InOnePlace (record t { engine = stop t.engine })
  unfolding stop
  stop-InOnePlace t h =
      let g = t.engine in
      omega (arith, h, rejected_all n (engine_error "GroupCommitEngine stopped") g.buffer g.settled)

  module _ (uuid : ℕ → JobId) (K : Codec) (o : Options) where
    add_run-IsTracked :
        (t : Runtime) (g : Engine) (x : Engine × Run)
        → IsTracked t
        → is_settled n g + waits n g ≡ is_settled n t.engine + waits n t.engine
        → g.next_ticket ≡ t.engine.next_ticket
        → Balanced n 0 g x
        → IsTracked (add_run uuid K o t.runs x)
    unfolding add_run
    add_run-IsTracked t g (g', run) (h, hs) same same_next (e, f, fits) = (
      ap (λ k. is_settled n g' + waits n g' + k) (with_runs-append n t.runs run)
          ∙ omega (arith, e, same)
          ∙ h
          ∙ ap (λ k. if ltb n k then 1 else 0) (sym (f ∙ same_next)),
      Fits-append t.runs run hs fits,
    )

    fire-IsTracked :
        (now : ℕ) (timer : Option ℕ) (t : Runtime)
        → IsTracked t
        → IsTracked (fire uuid K o now timer t)
    unfolding fire
    fire-IsTracked now none t h = h
    fire-IsTracked now (some delay_ms) t h =
        let g : Engine = record (t.engine) { loop_timer = none } in
        if-IsTracked t.engine.running _ _
          (add_run-IsTracked t g (begin_process uuid K o g.buffer now g) h refl refl
            (begin_process-Balanced n uuid K o g.buffer now g refl))
          h

    answer_at-IsTracked :
        (i now : ℕ) (a : Answer uuid K o) (run : Option Run) (t : Runtime)
        → get_elem? t.runs i ≡ run
        → IsTracked t
        → IsTracked (answer_at uuid K o i now a run t)
    unfolding answer_at put_run
    answer_at-IsTracked i now a none t found h = h
    answer_at-IsTracked i now a (some run) t found (h, hs) =
        let (g', run') = answer_run uuid K o now a t.engine run in
        let (e, f, fits) =
          answer_run-Balanced n uuid K o now a t.engine run
            (get_elem?-Fits t.runs i run hs found) in
        (
          omega (arith, e, with_runs-set n t.runs i run run' found)
              ∙ h
              ∙ ap (λ k. if ltb n k then 1 else 0) (sym f),
          Fits-set t.runs i run' hs fits,
        )

    next-IsTracked :
        (e : Event uuid K o) (t : Runtime) → IsTracked t → IsTracked (next uuid K o e t)
    unfolding next
    next-IsTracked starts t (h, hs) =
        if-IsTracked t.engine.running t _ (h, hs)
          (omega (arith, with_runs-append n t.runs creating) ∙ h, Fits-append t.runs creating hs tt)
    next-IsTracked (submits m) t (h, hs) = (submit-InOnePlace m t h, hs)
    next-IsTracked stops t (h, hs) = (stop-InOnePlace t h, hs)
    next-IsTracked (fires now) t h = fire-IsTracked now t.engine.loop_timer t h
    next-IsTracked (answers i now a) t h = answer_at-IsTracked i now a (get_elem? t.runs i) t refl h

    run_events-IsTracked :
        (events : List (Event uuid K o)) (t : Runtime)
        → IsTracked t
        → IsTracked (run_events uuid K o events t)
    unfolding run_events
    run_events-IsTracked [] t h = h
    run_events-IsTracked (e ∷ events) t h =
        run_events-IsTracked events (next uuid K o e t) (next-IsTracked e t h)

    -- However an engine is started, stopped and given mutations from its making on, whenever its timer
    -- fires, and whatever the store answers, runs of the write loop that overlap included: each
    -- promise that was given out is in exactly one place, which is the list of those that were
    -- settled, the buffer, or a run that took it and has not settled it; and it is there once. So no
    -- promise is settled twice, no mutation is in two batches, and none is dropped but by a run.
    pub run_events-InOnePlace :
        (events : List (Event uuid K o))
        → InOnePlace (run_events uuid K o events (record { engine = new_engine; runs = [] }))
    run_events-InOnePlace events =
        (run_events-IsTracked events (record { engine = new_engine; runs = [] })
          (ground arith, tt)).0
