-- ===== src/Broker/Server.antt =====
-- packages/broker/src/server.ts: the life of a broker, `start`, the heartbeat's timer and `stop`. The
-- engine's write loop runs once for each mutation that is awaited; Fastify's part of `start`, up to
-- `listen`, is given by its outcome. What is printed to the console is left out.
pub mod Leading
pub mod Heartbeat
use osqueue.Base.{
  ℕ, ◌*◌, ◌/◌, String, ◌<>◌, Bool, true, false, not, List, [], ◌∷◌, Option, none, some,
  if◌then◌else◌, or_default, nat_eq, ltb,
}
use osqueue.Base.Decimal.{decimal}
use osqueue.Types.{JobId, Mutation, default_broker_heartbeat_timeout_ms}
use osqueue.Types.Errors.{
  Tag, Thrown, osqueue_error, tagged_error, new_error, no_details, no_cause, Result, ok, thrown,
}
use osqueue.Storage.{StorageBackend}
use osqueue.Engine.{
  Codec, Options, complete_options, Engine, new_engine, World, Settlement, resolved, rejected,
  submit, stop,
}
use osqueue.Engine.Commit.{start, write_loop}
use osqueue.Election.{
  BrokerElection, new_election, ElectionResult, elected, already_leader, other_leader, conflict,
  try_elect, check_leadership,
}

pub record BrokerServerOptions : Type 0 where
  pub host : Option String
  pub port : Option ℕ
  pub heartbeat_interval_ms : Option ℕ
  pub heartbeat_timeout_ms : Option ℕ
  pub group_commit_interval_ms : Option ℕ

-- The options as the constructor completes them.
pub record ServerOptions : Type 0 where
  pub host : String
  pub port : ℕ
  pub heartbeat_interval_ms : ℕ
  pub heartbeat_timeout_ms : ℕ
  pub group_commit_interval_ms : ℕ

abbrev pub complete_server_options : BrokerServerOptions → ServerOptions
complete_server_options o = record {
  host = or_default o.host "0.0.0.0";
  port = or_default o.port 8080;
  heartbeat_interval_ms = or_default o.heartbeat_interval_ms 3000;
  heartbeat_timeout_ms = or_default o.heartbeat_timeout_ms default_broker_heartbeat_timeout_ms;
  group_commit_interval_ms = or_default o.group_commit_interval_ms 50;
}

unfoldable pub address : ServerOptions → String
address o = o.host <> ":" <> decimal o.port

-- The options of the engine and the election that the constructor makes.
abbrev pub engine_options : ServerOptions → Options
engine_options o = complete_options record {
  state_key = none;
  interval_ms = some o.group_commit_interval_ms;
  heartbeat_timeout_ms = none;
  max_retries = none;
}

abbrev pub server_election : ServerOptions → BrokerElection
server_election o = new_election record {
  broker_address = address o;
  state_key = none;
  heartbeat_timeout_ms = some o.heartbeat_timeout_ms;
}

-- The server's own fields, its engine and the store.
pub record BrokerServer (Store : Type 0) : Type 0 where
  pub world : World Store
  pub running : Bool
  pub heartbeat_timer : Option ℕ
  pub listening : Bool

abbrev pub new_server : {Store : Type 0} → Store → BrokerServer Store
new_server s = record {
  world = record { engine = new_engine; store = s };
  running = false;
  heartbeat_timer = none;
  listening = false;
}

-- `start` returns, throws, or awaits a promise that is never settled.
pub data Started : Type 0 where
  started hangs : Started
  failed : Thrown → Started

unfoldable pub leadership_error : String → Option String → Thrown
leadership_error message leader =
    osqueue_error
      (tagged_error Tag.broker_leadership message (record no_details { leader = leader }) no_cause)

-- The first test of `start`.
unfoldable pub check_intervals : ServerOptions → Result (Unit {0})
unfolding leadership_error
check_intervals o =
    if ltb o.heartbeat_interval_ms o.heartbeat_timeout_ms
    then ok tt
    else thrown (
        leadership_error
          ("heartbeatIntervalMs ("
            <> decimal o.heartbeat_interval_ms
            <> ") must be less than heartbeatTimeoutMs ("
            <> decimal o.heartbeat_timeout_ms
            <> "). Standby brokers will consider the leader dead between heartbeats, causing split-brain. "
            <> "Set heartbeatIntervalMs to at most "
            <> decimal (o.heartbeat_timeout_ms / 3)
            <> "ms.")
          none)

unfoldable pub check_election : Result ElectionResult → Result (Unit {0})
unfolding leadership_error
check_election (thrown e) = thrown e
check_election (ok elected) = ok tt
check_election (ok already_leader) = ok tt
check_election (ok (other_leader leader)) =
    thrown
      (leadership_error ("Another broker is active: " <> leader <> ". Cannot start.") (some leader))
check_election (ok conflict) =
    thrown (leadership_error "CAS conflict during election. Retry later." none)

-- What the promise of a ticket has become, if it was settled.
unfoldable pub settled_of : ℕ → List (ℕ × Settlement) → Option Settlement
settled_of ticket [] = none
settled_of ticket ((t, s) ∷ rest) = if nat_eq t ticket then some s else settled_of ticket rest

unfoldable pub stop_server : {Store : Type 0} → BrokerServer Store → BrokerServer Store
stop_server b = record b {
  world = record (b.world) { engine = stop b.world.engine };
  running = false;
  heartbeat_timer = none;
  listening = false;
}

module _ (uuid : ℕ → JobId) (K : Codec) (S : StorageBackend K.Bytes) (o : ServerOptions) where
  open S use {State}

  -- `await this.engine.submit({ type: "register_broker", ... })`: the write loop runs, and `arrivals` are
  -- submitted meanwhile.
  unfoldable pub register :
      ℕ → (ℕ → ℕ) → List Mutation → World State → Option Settlement × World State
  unfolding settled_of
  register now clock arrivals w =
      let g = submit (Mutation.register_broker (address o) now) w.engine in
      let w' = write_loop uuid K S (engine_options o) clock arrivals (record w { engine = g }) in
      (settled_of w.engine.next_ticket w'.engine.settled, w')

  unfoldable pub listen : Result (Unit {0}) → BrokerServer State → Started × BrokerServer State
  listen (thrown e) b = (failed e, b)
  listen (ok done) b = (
    started,
    record b { running = true; heartbeat_timer = some o.heartbeat_interval_ms; listening = true },
  )

  unfoldable pub registered :
      Result (Unit {0})
      → Option Settlement × World State
      → BrokerServer State
      → Started × BrokerServer State
  unfolding listen
  registered listens (none, w) b = (hangs, record b { world = w })
  registered listens (some (rejected e), w) b = (failed e, record b { world = w })
  registered listens (some (resolved r), w) b = listen listens (record b { world = w })

  unfoldable pub engine_started :
      ℕ
      → (ℕ → ℕ)
      → Result (Unit {0})
      → Result (Unit {0}) × World State
      → BrokerServer State
      → Started × BrokerServer State
  unfolding registered
  engine_started now clock listens (thrown e, w) b = (failed e, record b { world = w })
  engine_started now clock listens (ok done, w) b = registered listens (register now clock [] w) b

  unfoldable pub after_election :
      ℕ
      → (ℕ → ℕ)
      → Result (Unit {0})
      → Result (Unit {0})
      → BrokerServer State
      → Started × BrokerServer State
  unfolding engine_started
  after_election now clock listens (thrown e) b = (failed e, b)
  after_election now clock listens (ok done) b =
      engine_started now clock listens (start uuid K S (engine_options o) b.world) b

  unfoldable pub after_check :
      ℕ
      → (ℕ → ℕ)
      → Result (Unit {0})
      → Result (Unit {0})
      → BrokerServer State
      → Started × BrokerServer State
  unfolding after_election
  after_check now clock listens (thrown e) b = (failed e, b)
  after_check now clock listens (ok done) b =
      let (r, s) = try_elect (server_election o) K S now b.world.store in
      after_election now clock listens (check_election r)
        (record b { world = record (b.world) { store = s } })

  -- `start`, at the time `now`; `listens` is the outcome of Fastify's `register` and `listen`.
  unfoldable pub start_server :
      ℕ → (ℕ → ℕ) → Result (Unit {0}) → BrokerServer State → Started × BrokerServer State
  unfolding after_check check_intervals
  start_server now clock listens b = after_check now clock listens (check_intervals o) b

  unfoldable pub demote : Result Bool × State → BrokerServer State → BrokerServer State
  unfolding stop_server
  demote (thrown e, s) b = record b { world = record (b.world) { store = s } }
  demote (ok true, s) b = record b { world = record (b.world) { store = s } }
  demote (ok false, s) b = stop_server (record b { world = record (b.world) { store = s } })

  -- The rest of the timer's callback, where the mutation's promise has been settled; where it never is,
  -- the callback goes no further.
  unfoldable pub after_register :
      Option Settlement × World State → BrokerServer State → BrokerServer State
  unfolding demote
  after_register (none, w) b = record b { world = w }
  after_register (some (rejected e), w) b = record b { world = w }
  after_register (some (resolved r), w) b =
      demote (check_leadership (server_election o) K S w.store) (record b { world = w })

  -- The callback of the heartbeat's timer.
  unfoldable pub on_heartbeat :
      ℕ → (ℕ → ℕ) → List Mutation → BrokerServer State → BrokerServer State
  unfolding after_register
  on_heartbeat now clock arrivals b =
      if not b.running then b else after_register (register now clock arrivals b.world) b
