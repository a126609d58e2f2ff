-- ===== src/Engine.antt =====
-- packages/core/src/group-commit.ts: the engine that buffers mutations and commits them in batches.
-- A promise is a ticket, and the log `settled` records what each was resolved or rejected with.
-- The parts that work on the store are in `Engine.Commit`.
pub mod Commit
pub mod Interleaved
use osqueue.Base.{
  ℕ, zero, suc, ◌+◌, String, Bool, true, false, not, ◌&&◌, ◌||◌, List, [], ◌∷◌, ◌++◌, map, Option,
  none, some, if◌then◌else◌, length, nat_eq, ltb, is_some, or_default,
}
use osqueue.Types.{
  JobId, StorageVersion, QueueState, Mutation, MutationResult, queue_state_key,
  default_heartbeat_timeout_ms,
}
use osqueue.Types.Errors.{
  Tag, Thrown, osqueue_error, Result, ok, thrown, new_error, no_cause, wrap_unknown_error,
  is_cas_conflict,
}
use osqueue.Queue.{empty_state, expire_heartbeats, apply_mutation}
use osqueue.Storage.{StorageBackend, StorageReadResult}

-- `JSON` and the text encoders, on the states of the queue: what was encoded is decoded to itself,
-- and decoding other bytes may throw.
pub record Codec : Type 1 where
  pub Bytes : Type 0
  pub encode : QueueState → Bytes
  pub decode : Bytes → Result QueueState

pub record Pending : Type 0 where
  pub ticket : ℕ
  pub mutation : Mutation

pub data Settlement : Type 0 where
  resolved : MutationResult → Settlement
  rejected : Thrown → Settlement

-- The options as the caller gives them, and as the constructor completes them. They never change,
-- and are a parameter of the engine's calls. `conflictBackoffMs` only sets how long a wait is.
pub record GroupCommitEngineOptions : Type 0 where
  pub state_key : Option String
  pub interval_ms : Option ℕ
  pub heartbeat_timeout_ms : Option ℕ
  pub max_retries : Option ℕ

pub record Options : Type 0 where
  pub state_key : String
  pub interval_ms : ℕ
  pub heartbeat_timeout_ms : ℕ
  pub max_retries : ℕ

abbrev pub complete_options : GroupCommitEngineOptions → Options
complete_options o = record {
  state_key = or_default o.state_key queue_state_key;
  interval_ms = or_default o.interval_ms 50;
  heartbeat_timeout_ms = or_default o.heartbeat_timeout_ms default_heartbeat_timeout_ms;
  max_retries = or_default o.max_retries 5;
}

pub record Engine : Type 0 where
  pub buffer : List Pending
  pub cached_state : Option QueueState
  pub cached_version : Option StorageVersion
  pub running : Bool
  -- The delay of the timer that is set, if one is.
  pub loop_timer : Option ℕ
  pub next_ticket : ℕ
  pub settled : List (ℕ × Settlement)
  -- The number of identifiers drawn.
  pub drawn : ℕ

abbrev pub new_engine : Engine
new_engine = record {
  buffer = [];
  cached_state = none;
  cached_version = none;
  running = false;
  loop_timer = none;
  next_ticket = 0;
  settled = [];
  drawn = 0;
}

abbrev pub engine_error : String → Thrown
engine_error message = osqueue_error (new_error Tag.engine_state message no_cause)

-- `wrapUnknownError(err, (message, cause) => new EngineStateError(message, { cause }))`
abbrev pub wrap_engine : Thrown → Thrown
wrap_engine e = wrap_unknown_error e (λ message c. new_error Tag.engine_state message c)

-- `clearTimeout` is part of `scheduleLoop`: the engine has one timer at most.
schedule_loop : ℕ → Engine → Engine
schedule_loop delay_ms g = record g { loop_timer = some delay_ms }

unfoldable pub submit : Mutation → Engine → Engine
unfolding schedule_loop
submit mutation g =
    let buffer' = g.buffer ++ record { ticket = g.next_ticket; mutation = mutation } ∷ [] in
    let g' : Engine = record g { buffer = buffer'; next_ticket = suc g.next_ticket } in
    if g.running && nat_eq (length buffer') 1 then schedule_loop 0 g' else g'

unfoldable pub reject_all : Thrown → List Pending → List (ℕ × Settlement)
reject_all e [] = []
reject_all e (pm ∷ batch) = (pm.ticket, rejected e) ∷ reject_all e batch

-- `batch[i]!.resolve(results[i]!)` for every index of the batch.
unfoldable pub resolve_all : List Pending → List MutationResult → List (ℕ × Settlement)
resolve_all [] results = []
resolve_all (pm ∷ batch) [] = []
resolve_all (pm ∷ batch) (r ∷ results) = (pm.ticket, resolved r) ∷ resolve_all batch results

unfoldable pub stop : Engine → Engine
unfolding reject_all
stop g = record g {
  running = false;
  loop_timer = none;
  buffer = [];
  settled = g.settled ++ reject_all (engine_error "GroupCommitEngine stopped") g.buffer;
}

unfoldable pub get_cached_state : Engine → Option QueueState
get_cached_state g = g.cached_state

-- What applying a batch leaves: the state, the results in order, and the identifiers drawn.
pub record Batched : Type 0 where
  pub state : QueueState
  pub results : List MutationResult
  pub drawn : ℕ

-- The engine and the store that it works on.
pub record World (Store : Type 0) : Type 0 where
  pub engine : Engine
  pub store : Store

module _ (uuid : ℕ → JobId) where
  unfoldable pub apply_batch : QueueState → List Pending → ℕ → ℕ → Batched
  apply_batch state [] now drawn = record { state = state; results = []; drawn = drawn }
  apply_batch state (pm ∷ batch) now drawn =
      let a = apply_mutation uuid state pm.mutation now drawn in
      let rest = apply_batch a.state batch now a.drawn in
      record { state = rest.state; results = a.result ∷ rest.results; drawn = rest.drawn }
