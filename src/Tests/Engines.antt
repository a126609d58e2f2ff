-- ===== src/Tests/Engines.antt =====
-- The group-commit engine and the election at concrete inputs.
use osqueue.Base.{
  ◌⊎◌, arith, ℕ, ◌≡◌, refl, inl, inr, true, String, [], ◌∷◌, Option, none, some, string_eq,
}
use osqueue.Base.Decimal.{decimal}
use osqueue.Base.Dict.{lookup}
use osqueue.Types.{Value, QueueState, Mutation}
use osqueue.Json.States.{json_codec, decode-encode}
use osqueue.Types.Errors.{
  wrap_unknown_error, Tag, new_error, cause, osqueue_error, Thrown, native_error, ok,
}
use osqueue.Storage.Memory.{read}
use osqueue.Storage.Memory.Shared.{
  Shared, IsConsistent, shared_backend, shared_view, shared_read, let_others, shared-IsJournaled,
}
use osqueue.Engine.{
  Codec, Options, Engine, World, new_engine, complete_options, wrap_engine, reject_all,
}
use osqueue.Engine.Commit.{start, process_buffer, write_loop}
use osqueue.Engine.Commit.Outcome.{Rejects, Escapes, Finishes, process_buffer-Finishes}
use osqueue.Engine.Commit.Contention.{Resolves}
use osqueue.Engine.Commit.Progress.{process_buffer-Succeeds}
use osqueue.Engine.Commit.Contended.{shared_contention}
use osqueue.Engine.Commit.Start.{Starts, start-Starts}
use osqueue.Engine.Commit.Refines.{RunsOnto, process_buffer-RunsOnto}
use osqueue.Engine.Commit.Lost.{arrived, write_loop_loses_batch}
use osqueue.Election.{check_leadership, BrokerElection, new_election, try_elect}
use osqueue.Election.Leadership.{Leads, check_leadership-Leads}
use osqueue.Election.Safety.{Means, try_elect-Means}

-- States that are stored as they are.
abbrev plain : Codec
plain = record { Bytes = QueueState; encode = λ state. state; decode = ok }

abbrev key : String
key = "queue.json"

abbrev options : Options
options = complete_options (record {
  state_key = none;
  interval_ms = none;
  heartbeat_timeout_ms = none;
  max_retries = some 1;
})

abbrev quiet : QueueState
quiet = record { broker = none; broker_heartbeat = 0; jobs = []; completed_total = 3 }

-- The object holds one content, and another client writes a second one before the next call but one.
abbrev store : Option Thrown → Shared QueueState
store fail_with = record {
  memory = record {
    objects = (key, record { bytes = quiet; version = 1 }) ∷ [];
    fail_with = fail_with;
  };
  journal = quiet ∷ [];
  others = none ∷ some quiet ∷ [];
}

store-IsConsistent : (fail_with : Option Thrown) → IsConsistent key (store fail_with)
unfolding lookup string_eq
store-IsConsistent fail_with = inr ([], quiet, refl, refl)

abbrev engine : Engine
engine = record new_engine {
  running = true;
  buffer =
      record { ticket = 0; mutation = Mutation.claim "w" none }
      ∷ record { ticket = 1; mutation = Mutation.register_broker "a:1" 50 }
      ∷ [];
  next_ticket = 2;
}

abbrev world : Option Thrown → World (Shared QueueState)
world fail_with = record { engine = engine; store = store fail_with }

abbrev clock : ℕ → ℕ
clock i = i

-- A refresh fails while the loop has a batch, and one mutation arrives meanwhile.
process_buffer-Finishes_example :
    Finishes decimal plain
      (shared_backend key)
      options
      (shared_view key)
      (shared-IsJournaled key)
      (λ s. refl)
      (world none).engine.buffer
      (world none)
      (process_buffer decimal plain (shared_backend key) options clock (world none))
process_buffer-Finishes_example =
    process_buffer-Finishes decimal plain (shared_backend key) options (shared_view key)
      (shared-IsJournaled key) (λ s. refl) clock (world none)
      (record { valid = store-IsConsistent none; coherent = tt }) (λ e. cc)

-- The memory backend's wrapping of the failure.
abbrev down : Thrown
down =
    osqueue_error
      (new_error Tag.storage_backend "Memory backend failure: down" (cause (native_error "down")))

write_loop_loses_batch_example :
    let g =
      (write_loop decimal plain
        (shared_backend key)
        options
        clock
        (Mutation.heartbeat "j" "w" ∷ [])
        (world (some (native_error "down")))).engine in
    (g.buffer ≡ [])
    × (g.settled ≡ reject_all (wrap_engine down) (arrived 2 (Mutation.heartbeat "j" "w" ∷ [])))
unfolding shared_read let_others read wrap_unknown_error
write_loop_loses_batch_example =
    write_loop_loses_batch decimal plain (shared_backend key) options
      (world (some (native_error "down"))) down refl refl clock (Mutation.heartbeat "j" "w" ∷ [])
      refl (λ e. cc)

abbrev candidate : BrokerElection
candidate =
    new_election (record { broker_address = "b:1"; state_key = none; heartbeat_timeout_ms = none })

try_elect-Means_example :
    let (r, s') = try_elect candidate plain (shared_backend key) 40 (store none) in
    Means candidate plain
      (shared_backend key)
      (shared_view key)
      (shared-IsJournaled key)
      40
      (quiet ∷ [])
      ((shared_view key).journal s')
      r
try_elect-Means_example =
    try_elect-Means candidate plain (shared_backend key) (shared_view key) (shared-IsJournaled key)
      40 (store none) (store-IsConsistent none)

check_leadership-Leads_example :
    let (r, s') = check_leadership candidate plain (shared_backend key) (store none) in
    Leads candidate plain
      (shared_backend key)
      (shared_view key)
      (shared-IsJournaled key)
      ((shared_backend key).read "queue.json" (store none)).0
      ((shared_view key).journal s')
      r
check_leadership-Leads_example =
    check_leadership-Leads candidate plain (shared_backend key) (shared_view key)
      (shared-IsJournaled key) (store none) (store-IsConsistent none)

-- No object is there, and states are stored as JSON.
abbrev fresh_world : World (Shared (Option Value))
fresh_world = record {
  engine = new_engine;
  store = record { memory = record { objects = []; fail_with = none }; journal = []; others = [] };
}

start-Starts_example :
    Starts decimal json_codec
      (shared_backend key)
      options
      (shared_view key)
      (shared-IsJournaled key)
      decode-encode
      fresh_world
      (start decimal json_codec (shared_backend key) options fresh_world)
unfolding lookup
start-Starts_example =
    start-Starts decimal json_codec (shared_backend key) options (shared_view key)
      (shared-IsJournaled key) decode-encode fresh_world
      (record { valid = inl (refl, refl); coherent = tt }) refl

-- Another client writes the state once more before the engine reads it, and the batch is committed.
process_buffer-RunsOnto_example :
    let (r, w') = process_buffer decimal plain (shared_backend key) options clock (world none) in
    (r ≡ ok tt)
      × RunsOnto decimal plain
          (shared_backend key)
          options
          (shared_view key)
          (shared-IsJournaled key)
          (λ s. refl)
          engine.buffer
          (world none)
          w'
    ⊎ (r ≡ ok tt)
      × Rejects decimal plain
          (shared_backend key)
          options
          (shared_view key)
          (shared-IsJournaled key)
          (λ s. refl)
          engine.buffer
          (world none)
          w'
    ⊎ Escapes decimal plain
        (shared_backend key)
        options
        (shared_view key)
        (shared-IsJournaled key)
        (λ s. refl)
        r
        (world none)
        w'
process_buffer-RunsOnto_example =
    process_buffer-RunsOnto decimal plain (shared_backend key) options (shared_view key)
      (shared-IsJournaled key) (λ s. refl) clock (world none)
      (record { valid = store-IsConsistent none; coherent = tt }) (λ e. cc)

-- One other client still writes, and the engine tries twice.
process_buffer-Succeeds_example :
    let (r, w') = process_buffer decimal plain (shared_backend key) options clock (world none) in
    (r ≡ ok tt)
    × Resolves decimal plain
        (shared_backend key)
        options
        (shared_contention plain key)
        engine.buffer
        (world none)
        w'
unfolding lookup string_eq
process_buffer-Succeeds_example =
    process_buffer-Succeeds decimal plain (shared_backend key) options (shared_contention plain key)
      clock (world none)
      (
        (
          (refl, record { bytes = quiet; version = 1 }, refl, (quiet, refl)),
          (tt, ((quiet, refl), tt)),
        ),
        omega arith,
      )
