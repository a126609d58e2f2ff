-- ===== src/Tests/Clients.antt =====
-- The client at concrete inputs: a storage that holds one state, and adapters that are numbers.
use osqueue.Base.{◌≡◌, ◌<>◌, refl, ℕ, String, [], ◌∷◌, none, some, string_eq, false, true}
use osqueue.Types.{QueueState, Value}
use osqueue.Types.Errors.{ok, thrown}
use osqueue.Storage.{StorageBackend}
use osqueue.Engine.{Codec}
use osqueue.Client.{
  Adapters, TransportOption, OsqueueClient, new_client, connect, create_adapter, set_adapter,
  discovery_error,
}
use osqueue.Client.Operations.{with_adapter}
use osqueue.Client.Discovery.{reconnects, connect-reconnects}
use osqueue.Client.Configured.{new_client-with_adapter}
use osqueue.Transports.Rest.{RestTransportConfig}

abbrev plain : Codec
plain = record { Bytes = QueueState; encode = λ state. state; decode = ok }

abbrev held : StorageBackend QueueState
held = record {
  State = QueueState;
  read = λ k s. (ok (some record { bytes = s; version = record { token = "1" } }), s);
  write = λ k bytes v s. (ok (record { token = "1" }), bytes);
  create_if_not_exists = λ k bytes s. (ok (record { token = "1" }), bytes);
}

-- The adapters for REST, which have neither `reconnect` nor `close`, are 0, and so on.
abbrev numbers : Adapters ℕ
numbers = record {
  create_rest = λ o. ok 0;
  create_ws = λ o. ok 1;
  create_connect = λ o. ok 2;
  submit_job = λ req a. (ok "j1", a);
  claim_job = λ req a. (ok record { job_id = none; type = ""; payload = Value.null }, a);
  heartbeat = λ req a. (ok tt, a);
  complete_job = λ req a. (ok tt, a);
  get_stats =
      λ a. (ok record { total = 0; unclaimed = 0; in_progress = 0; broker_address = "" }, a);
  list_jobs = λ a. (
    ok record {
      jobs = [];
      total = 0;
      unclaimed = 0;
      in_progress = 0;
      completed_total = 0;
      broker_address = "";
    },
    a,
  );
  reconnect = λ a. none;
  close = λ a. (ok tt, a);
}

abbrev named : String → QueueState
named broker = record { broker = some broker; broker_heartbeat = 0; jobs = []; completed_total = 0 }

abbrev rest_config : RestTransportConfig
rest_config = record { base_url = some "http://c:1"; fetch_impl = none }

abbrev client : OsqueueClient ℕ
client = record {
  adapter = none;
  broker_url = none;
  storage = true;
  transport_option = some (TransportOption.given_rest rest_config);
  discovery_retry_ms = 2000;
  http_version = "1.1";
}

abbrev found : OsqueueClient ℕ
found = record client { adapter = some 0; broker_url = some ("http://" <> "b:1") }

-- The storage names another broker by then, or still the first one.
connect-reconnects_example :
    ((reconnects numbers plain held (named "c:1" ∷ named "c:1" ∷ []) found).broker_url
      ≡ found.broker_url)
    × (reconnects numbers plain held (named "c:1" ∷ named "c:1" ∷ []) found
        ≡ reconnects numbers plain held (named "b:1" ∷ named "b:1" ∷ []) found)
unfolding connect set_adapter create_adapter string_eq
connect-reconnects_example =
    connect-reconnects numbers plain held client found (named "b:1") (named "b:1") refl refl
      (named "c:1" ∷ named "c:1" ∷ []) (named "b:1" ∷ named "b:1" ∷ []) refl

new_client-with_adapter_example :
    let (r, c) = new_client numbers record {
      broker_url = none;
      storage = false;
      transport = some (TransportOption.given_rest rest_config);
      discovery_retry_ms = none;
      http_version = none;
    } in
    (r ≡ ok tt)
    × (with_adapter numbers plain held numbers.get_stats c (named "b:1") ≡ (
      thrown (discovery_error "No brokerUrl, transport, or storage provided for broker discovery"),
      c,
      named "b:1",
    ))
new_client-with_adapter_example =
    new_client-with_adapter numbers plain held (TransportOption.given_rest rest_config) none none
      numbers.get_stats (named "b:1") refl
