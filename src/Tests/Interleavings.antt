-- ===== src/Tests/Interleavings.antt =====
-- Two runs of the write loop that overlap, and a stop while they are under way.
use osqueue.Base.{◌≡◌, refl, List, [], ◌∷◌, none}
use osqueue.Base.Decimal.{decimal}
use osqueue.Types.{QueueState, Mutation}
use osqueue.Types.Errors.{ok, thrown, native_error}
use osqueue.Queue.{apply_mutation, expire_heartbeats, expire_jobs}
use osqueue.Engine.{
  submit, stop, resolve_all, reject_all, apply_batch, Codec, Options, new_engine, complete_options,
}
use osqueue.Engine.Commit.Tickets.{settled_tickets}
use osqueue.Engine.Interleaved.{
  Event, starts, submits, stops, fires, answers, version_answer, go_on, run_events,
}
use osqueue.Engine.Interleaved.Accounted.{InOnePlace, run_events-InOnePlace}

abbrev plain : Codec
plain = record { Bytes = QueueState; encode = λ state. state; decode = ok }

abbrev options : Options
options = complete_options (record {
  state_key = none;
  interval_ms = none;
  heartbeat_timeout_ms = none;
  max_retries = none;
})

-- The first run waits for its write when the second starts; the second is answered first. A third
-- mutation waits when the engine stops, and the first write fails after that.
abbrev day : List (Event decimal plain options)
day =
    starts
    ∷ answers 0 0 (version_answer (ok (record { token = "1" })))
    ∷ submits (Mutation.claim "w" none)
    ∷ fires 1
    ∷ submits (Mutation.complete "j" "w")
    ∷ fires 2
    ∷ answers 2 3 (version_answer (ok (record { token = "2" })))
    ∷ submits (Mutation.heartbeat "j" "w")
    ∷ stops
    ∷ answers 1 4 (version_answer (thrown (native_error "down")))
    ∷ answers 1 4 go_on
    ∷ []

-- The promises are not settled in the order of their submission.
day_settles :
    settled_tickets
      (run_events decimal plain options day
        (record { engine = new_engine; runs = [] })).engine.settled
    ≡ 1 ∷ 2 ∷ 0 ∷ []
unfolding run_events submit stop resolve_all reject_all apply_batch apply_mutation expire_heartbeats
    expire_jobs
day_settles = refl

run_events-InOnePlace_example :
    InOnePlace 1 (run_events decimal plain options day (record { engine = new_engine; runs = [] }))
run_events-InOnePlace_example = run_events-InOnePlace 1 decimal plain options day
