-- ===== src/Client.antt =====
-- packages/client/src/client.ts: the client, which chooses an adapter, finds the broker through the
-- storage, and passes its calls on. Each call works on the client and on the store that the storage
-- reads. The types of the registry are checked by the compiler alone.
pub mod Operations
pub mod Discovery
pub mod Configured
use osqueue.Base.{
  ℕ, String, ◌<>◌, Bool, true, false, List, Option, none, some, if◌then◌else◌, or_default, ◌==◌,
  string_eq,
}
use osqueue.Types.{JobId, WorkerId, Value, QueueState, queue_state_key}
use osqueue.Types.Errors.{Tag, Thrown, osqueue_error, new_error, no_cause, Result, ok, thrown}
use osqueue.Storage.{StorageBackend, StorageReadResult}
use osqueue.Engine.{Codec}
use osqueue.Broker.Service.{GetStatsResponse, ListJobsResponse}
use osqueue.Transports.{SubmitJobRequest, ClaimJobRequest, HeldJobRequest, ClaimJobResult}
use osqueue.Transports.Rest.{RestTransportConfig, or_else}
use osqueue.Transports.Ws.{WsTransportConfig}
use osqueue.Transports.Connect.{QueueClient, ConnectTransportConfig, is_unset}

-- What a call on an adapter returns or throws, and the adapter after it.
abbrev pub Acts : Type 0 → Type 0 → Type 0
Acts A X = Result {0} X × A

-- `QueueTransportAdapter`, with the functions that create the three of the library. An adapter may
-- have no `reconnect`, and then `none` stands for it; one without `close` returns from it.
pub record Adapters (A : Type 0) : Type 0 where
  pub create_rest : RestTransportConfig → Result {0} A
  pub create_ws : WsTransportConfig → Result {0} A
  pub create_connect : ConnectTransportConfig → Result {0} A
  pub submit_job : SubmitJobRequest → A → Acts A JobId
  pub claim_job : ClaimJobRequest → A → Acts A ClaimJobResult
  pub heartbeat : HeldJobRequest → A → Acts A Unit
  pub complete_job : HeldJobRequest → A → Acts A Unit
  pub get_stats : A → Acts A GetStatsResponse
  pub list_jobs : A → Acts A ListJobsResponse
  pub reconnect : A → Option (Acts A Unit)
  pub close : A → Acts A Unit

-- The transport option, by what the three tests say of it: an adapter, a transport of Connect, or a
-- configuration with a `kind`. Another object is none of these.
pub data TransportOption (A : Type 0) : Type 0 where
  given_adapter : A → TransportOption A
  given_transport : QueueClient → TransportOption A
  given_rest : RestTransportConfig → TransportOption A
  given_ws : WsTransportConfig → TransportOption A
  given_connect : ConnectTransportConfig → TransportOption A
  given_other : TransportOption A

pub record OsqueueClientOptions (A : Type 0) : Type 0 where
  pub broker_url : Option String
  pub storage : Bool
  pub transport : Option (TransportOption A)
  pub discovery_retry_ms : Option ℕ
  pub http_version : Option String

-- `storage` says whether there is one.
pub record OsqueueClient (A : Type 0) : Type 0 where
  pub adapter : Option A
  pub broker_url : Option String
  pub storage : Bool
  pub transport_option : Option (TransportOption A)
  pub discovery_retry_ms : ℕ
  pub http_version : String

abbrev pub discovery_error : String → Thrown
discovery_error message = osqueue_error (new_error Tag.discovery message no_cause)

module _ {A : Type 0} (I : Adapters A) where
  default_adapter : String → OsqueueClient A → Result A
  default_adapter url c =
      I.create_connect
        record { base_url = some url; transport = none; http_version = some c.http_version }

  adapter_for : Option (TransportOption A) → String → OsqueueClient A → Result A
  unfolding default_adapter
  adapter_for none url c = default_adapter url c
  adapter_for (some (given_adapter a)) url c = ok a
  adapter_for (some (given_transport t)) url c =
      I.create_connect
        record { base_url = some url; transport = some t; http_version = some c.http_version }
  adapter_for (some (given_rest o)) url c =
      I.create_rest
        record { base_url = some (or_default o.base_url url); fetch_impl = o.fetch_impl }
  adapter_for (some (given_ws o)) url c = I.create_ws record {
    base_url = some (or_default o.base_url url);
    request_timeout_ms = o.request_timeout_ms;
    ws_path = o.ws_path;
  }
  adapter_for (some (given_connect o)) url c = I.create_connect record {
    base_url = some (or_default o.base_url url);
    transport = o.transport;
    http_version = some (or_default o.http_version c.http_version);
  }
  adapter_for (some given_other) url c = default_adapter url c

  unfoldable pub create_adapter : String → OsqueueClient A → Result A
  unfolding adapter_for
  create_adapter url c = adapter_for c.transport_option url c

  -- `this.adapter = this.createAdapter(url)`
  abbrev pub adapter_set : Result A → OsqueueClient A → Acts (OsqueueClient A) Unit
  adapter_set (ok a) c = (ok tt, record c { adapter = some a })
  adapter_set (thrown e) c = (thrown e, c)

  unfoldable pub set_adapter : String → OsqueueClient A → Acts (OsqueueClient A) Unit
  set_adapter url c = adapter_set (create_adapter url c) c

  blank_client : OsqueueClientOptions A → OsqueueClient A
  blank_client o = record {
    adapter = none;
    broker_url = o.broker_url;
    storage = o.storage;
    transport_option = o.transport;
    discovery_retry_ms = or_default o.discovery_retry_ms 2000;
    http_version = or_default o.http_version "1.1";
  }

  with_url : Option String → OsqueueClient A → Acts (OsqueueClient A) Unit
  with_url none c = (ok tt, c)
  with_url (some url) c = if url == "" then (ok tt, c) else set_adapter url c

  with_transport : Option (TransportOption A) → OsqueueClient A → Acts (OsqueueClient A) Unit
  unfolding with_url
  with_transport (some (given_adapter a)) c = (ok tt, record c { adapter = some a })
  with_transport _ c = with_url c.broker_url c

  -- The constructor, and whether it throws.
  unfoldable pub new_client : OsqueueClientOptions A → Acts (OsqueueClient A) Unit
  unfolding blank_client with_transport
  new_client o = with_transport o.transport (blank_client o)

  module _ (K : Codec) (S : StorageBackend K.Bytes) where
    open S use {State, read}

    -- What a call returns or throws, the client and the store.
    abbrev pub Calls : Type 0 → Type 0
    Calls X = Result {0} X × OsqueueClient A × State

    unfoldable pub found_broker : Option String → OsqueueClient A → Acts (OsqueueClient A) Unit
    found_broker none c = (thrown (discovery_error "No broker registered in queue state"), c)
    found_broker (some broker) c =
        if broker == ""
        then (thrown (discovery_error "No broker registered in queue state"), c)
        else let url = "http://" <> broker in set_adapter url (record c { broker_url = some url })

    unfoldable pub found_state :
        Result (Option (StorageReadResult K.Bytes)) → OsqueueClient A → Acts (OsqueueClient A) Unit
    unfolding found_broker
    found_state (thrown e) c = (thrown e, c)
    found_state (ok none) c =
        (thrown (discovery_error "Queue state not found — is a broker running?"), c)
    found_state (ok (some r)) c = elim (K.decode r.bytes) [
      | thrown e ↦ (thrown e, c)
      | ok state ↦ found_broker state.broker c
    ]

    unfoldable pub discover : OsqueueClient A → State → Calls Unit
    unfolding found_state
    discover c s =
        let (r, s') = read queue_state_key s in let (done, c') = found_state r c in (done, c', s')

    unfoldable pub connect_from : Option A → OsqueueClient A → State → Calls Unit
    unfolding discover
    connect_from (some a) c s = (ok tt, c, s)
    connect_from none c s = if c.storage then discover c s else (
      thrown (discovery_error "No brokerUrl, transport, or storage provided for broker discovery"),
      c,
      s,
    )

    unfoldable pub connect : OsqueueClient A → State → Calls Unit
    unfolding connect_from
    connect c s = connect_from c.adapter c s
