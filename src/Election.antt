-- ===== src/Election.antt =====
-- packages/core/src/broker-election.ts: how a broker becomes, and notices that it still is, the
-- leader that the queue's state names. `Date.now()` is the argument `now`.
pub mod Safety
pub mod Leadership
use osqueue.Base.{
  ℕ, ◌-◌, String, Bool, true, false, not, ◌&&◌, Option, none, some, if◌then◌else◌, ◌==◌, option_eq,
  string_eq, leb, or_default,
}
use osqueue.Types.{StorageVersion, QueueState, queue_state_key, default_broker_heartbeat_timeout_ms}
use osqueue.Types.Errors.{
  Tag, Thrown, Result, ok, thrown, new_error, wrap_unknown_error, is_cas_conflict,
}
use osqueue.Queue.{empty_state, register_broker}
use osqueue.Storage.{StorageBackend, StorageReadResult}
use osqueue.Engine.{Codec}

pub record BrokerElectionOptions : Type 0 where
  pub broker_address : String
  pub state_key : Option String
  pub heartbeat_timeout_ms : Option ℕ

pub record BrokerElection : Type 0 where
  pub broker_address : String
  pub state_key : String
  pub heartbeat_timeout_ms : ℕ

abbrev pub new_election : BrokerElectionOptions → BrokerElection
new_election o = record {
  broker_address = o.broker_address;
  state_key = or_default o.state_key queue_state_key;
  heartbeat_timeout_ms = or_default o.heartbeat_timeout_ms default_broker_heartbeat_timeout_ms;
}

pub data ElectionResult : Type 0 where
  elected already_leader : ElectionResult
  other_leader : String → ElectionResult
  conflict : ElectionResult

-- `wrapUnknownError(err, (message, cause) => new BrokerLeadershipError(message, { cause }))`
abbrev wrap_leadership : Thrown → Thrown
wrap_leadership e = wrap_unknown_error e (λ message c. new_error Tag.broker_leadership message c)

-- The two `catch` blocks of `tryElect`, and the ends of their `try` blocks.
pub outcome : Result StorageVersion → Result ElectionResult
outcome (ok version) = ok elected
outcome (thrown e) = if is_cas_conflict e then ok conflict else thrown (wrap_leadership e)

module _ (E : BrokerElection) where
  -- `now - state.brokerHeartbeat <= this.heartbeatTimeoutMs`. Where the clock stands before the
  -- heartbeat, the difference is negative in the code and 0 here, and the test passes in both.
  abbrev pub is_fresh : QueueState → ℕ → Bool
  is_fresh state now = leb (now - state.broker_heartbeat) E.heartbeat_timeout_ms

  module _ (K : Codec) (S : StorageBackend K.Bytes) where
    open S use {State, read, write, create_if_not_exists}

    -- No state yet: create one with this broker as the leader.
    pub found_queue : ℕ → State → Result ElectionResult × State
    unfolding outcome
    found_queue now s =
        let state = register_broker empty_state E.broker_address now in
        let (r, s') = create_if_not_exists E.state_key (K.encode state) s in (outcome r, s')

    -- The broker is stale or null: try to take over.
    pub take_over : QueueState → StorageVersion → ℕ → State → Result ElectionResult × State
    unfolding outcome
    take_over state version now s =
        let bytes = K.encode (register_broker state E.broker_address now) in
        let (r, s') = write E.state_key bytes version s in (outcome r, s')

    -- The test that another broker is alive.
    pub contend :
        QueueState → Option String → StorageVersion → ℕ → State → Result ElectionResult × State
    unfolding take_over
    contend state none version now s = take_over state version now s
    contend state (some broker) version now s =
        if not (broker == E.broker_address) && is_fresh state now
        then (ok (other_leader broker), s)
        else take_over state version now s

    pub challenge : QueueState → StorageVersion → ℕ → State → Result ElectionResult × State
    unfolding contend
    challenge state version now s =
        if state.broker == some E.broker_address && is_fresh state now
        then (ok already_leader, s)
        else contend state state.broker version now s

    pub with_state : Result QueueState → StorageVersion → ℕ → State → Result ElectionResult × State
    unfolding challenge
    with_state (thrown e) version now s = (thrown e, s)
    with_state (ok state) version now s = challenge state version now s

    pub after_read :
        ℕ → Result (Option (StorageReadResult K.Bytes)) × State → Result ElectionResult × State
    unfolding found_queue with_state
    after_read now (thrown e, s) = (thrown e, s)
    after_read now (ok none, s) = found_queue now s
    after_read now (ok (some r), s) = with_state (K.decode r.bytes) r.version now s

    unfoldable pub try_elect : ℕ → State → Result ElectionResult × State
    unfolding after_read
    try_elect now s = after_read now (read E.state_key s)

    unfoldable pub leads : Result QueueState → Result Bool
    leads (thrown e) = thrown e
    leads (ok state) = ok (state.broker == some E.broker_address)

    unfoldable pub leadership_of : Result (Option (StorageReadResult K.Bytes)) → Result Bool
    unfolding leads
    leadership_of (thrown e) = thrown e
    leadership_of (ok none) = ok false
    leadership_of (ok (some r)) = leads (K.decode r.bytes)

    unfoldable pub check_leadership : State → Result Bool × State
    unfolding leadership_of
    check_leadership s = let (r, s') = read E.state_key s in (leadership_of r, s')
