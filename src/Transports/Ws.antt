-- ===== src/Transports/Ws.antt =====
-- packages/client/src/transports/ws.ts: the state of the WebSocket adapter and what each call and
-- each event of a socket does to it. Sockets and promises of their opening are numbered. The URL that
-- is opened, and the decoding of binary messages to text, are left to the platform; a message is the
-- JSON value of its text, or `none`.
pub mod Once
pub mod Late
use osqueue.Base.{
  ℕ, suc, ◌+◌, String, ◌<>◌, Bool, true, false, List, [], ◌∷◌, ◌++◌, map, Option, none, some,
  if◌then◌else◌, ◌==◌, string_eq, or_default,
}
use osqueue.Base.Decimal.{decimal}
use osqueue.Base.Dict.{Dict, lookup, insert, erase}
use osqueue.Json.{put, option_map, not_null, string_of, is_truthy, text_array}
use osqueue.Types.{JobId, Value, Properties, no_properties, property}
use osqueue.Types.Errors.{
  Tag, Thrown, osqueue_error, tagged_error, new_error, no_details, no_cause, Result, ok, thrown,
}
use osqueue.Broker.Dispatch.{member, param, text_or_empty, if_text}
use osqueue.Transports.{SubmitJobRequest, ClaimJobRequest, HeldJobRequest}

pub record WsTransportConfig : Type 0 where
  pub base_url : Option String
  pub request_timeout_ms : Option ℕ
  pub ws_path : Option String

-- `WsRpcMethod`
pub data Method : Type 0 where
  submit_job claim_job heartbeat complete_job get_stats list_jobs : Method

abbrev pub method_name : Method → String
method_name Method.submit_job = "submitJob"
method_name Method.claim_job = "claimJob"
method_name Method.heartbeat = "heartbeat"
method_name Method.complete_job = "completeJob"
method_name Method.get_stats = "getStats"
method_name Method.list_jobs = "listJobs"

-- The entry of a request in `pending`: the request's identifier stands for its promise and its timer,
-- which is set as long as the entry is there.
pub record PendingRequest : Type 0 where
  pub method : Method

-- A call of `resolve` or of `reject`.
pub data Settlement : Type 0 where
  resolved : Option Value → Settlement
  rejected : Thrown → Settlement

-- The variables of `createWsAdapter`, and the logs of the calls of `resolve` and `reject`, of the
-- requests whose `send` threw, and of what was sent on which socket.
pub record WsAdapter : Type 0 where
  pub timeout_ms : ℕ
  pub ws_path : String
  pub socket : Option ℕ
  pub open_promise : Option ℕ
  pub request_counter : ℕ
  pub pending : Dict PendingRequest
  pub settled : Dict Settlement
  pub refused : Dict Thrown
  pub sent : List (ℕ × Value)

-- The variables at the start.
abbrev pub new_adapter : WsTransportConfig → WsAdapter
new_adapter config = record {
  timeout_ms = or_default config.request_timeout_ms 10_000;
  ws_path = or_default config.ws_path "/v1/ws";
  socket = none;
  open_promise = none;
  request_counter = 0;
  pending = [];
  settled = [];
  refused = [];
  sent = [];
}

unfoldable pub create_ws_adapter : WsTransportConfig → Result WsAdapter
create_ws_adapter config =
    if or_default config.base_url "" == ""
    then thrown (
        osqueue_error
          (new_error Tag.transport_config "WebSocket transport requires baseUrl" no_cause))
    else ok (new_adapter config)

abbrev pub connection_error : String → Thrown
connection_error message = osqueue_error (new_error Tag.transport_connection message no_cause)

abbrev pub request_error : String → Method → Option String → Thrown
request_error message method remote_tag = osqueue_error (
    tagged_error Tag.transport_request message
      (record no_details { method = some (method_name method); remote_tag = remote_tag }) no_cause)

unfoldable pub reset_socket : WsAdapter → WsAdapter
reset_socket w = record w { socket = none; open_promise = none }

-- The calls of `reject` in the order of the map.
unfoldable pub reject_each : Thrown → Dict PendingRequest → Dict Settlement
reject_each reason [] = []
reject_each reason ((id, req) ∷ rest) = (id, rejected reason) ∷ reject_each reason rest

unfoldable pub reject_pending : Thrown → WsAdapter → WsAdapter
unfolding reject_each
reject_pending reason w = record w {
  pending = [];
  settled = w.settled ++ reject_each reason w.pending;
}

-- How `ensureSocket` goes on: it returns, it awaits the promise that is there, or it starts a new one.
pub data Ensured : Type 0 where
  ready opening : Ensured
  awaiting : ℕ → Ensured

-- The first part of `ensureSocket`; `is_open` is `socket.readyState === 1`, and `promise` the number
-- of a promise that is made.
unfoldable pub ensure_socket : Bool → ℕ → WsAdapter → Ensured × WsAdapter
ensure_socket is_open promise w =
    if (elim w.socket [ none ↦ false | some s ↦ is_open ])
    then (ready, w)
    else elim w.open_promise [
      | some p ↦ (awaiting p, w)
      | none ↦ (opening, record w { open_promise = some promise })
    ]

-- `socket = new WebSocketCtor(...)`
unfoldable pub socket_created : ℕ → WsAdapter → WsAdapter
socket_created s w = record w { socket = some s }

-- `finally { openPromise = null }`: the promise that this call started was settled, either way.
unfoldable pub opening_settled : WsAdapter → WsAdapter
opening_settled w = record w { open_promise = none }

-- The listener for "close", of any socket that the adapter has made.
unfoldable pub on_close : WsAdapter → WsAdapter
on_close w = reset_socket (reject_pending (connection_error "WebSocket closed") w)

unfoldable pub settlement_of : Method → Value → Settlement
settlement_of method message =
    if elim (member "ok" message) [ none ↦ false | some v ↦ is_truthy v ]
    then resolved (member "result" message)
    else let error = member "error" message in
      rejected (
        request_error
          (elim (not_null (param "message" error)) [
            | none ↦ "WebSocket request failed"
            | some v ↦ string_of v
          ])
          method (if_text (param "_tag" error)))

-- A pending request is settled: it leaves the map, and its timer is cleared.
unfoldable pub settle_request : String → Settlement → WsAdapter → WsAdapter
settle_request id s w = record w {
  pending = erase id w.pending;
  settled = w.settled ++ (id, s) ∷ [];
}

unfoldable pub handle_message : Option Value → WsAdapter → WsAdapter
unfolding settlement_of
handle_message none w = w
handle_message (some message) w =
    let id = text_or_empty (member "id" message) in
    elim (lookup id w.pending) [
      | none ↦ w
      | some req ↦ settle_request id (settlement_of req.method message) w
    ]

-- The timer of a request fires; a timer whose request is not pending has been cleared.
unfoldable pub on_timeout : String → WsAdapter → WsAdapter
on_timeout id w = elim (lookup id w.pending) [
  | none ↦ w
  | some req ↦
      settle_request id
        (rejected (
          request_error ("WebSocket request timed out: " <> method_name req.method) req.method
            none))
        w
]

abbrev pub message_value : String → Method → Properties → Value
message_value id method params = Value.object (
    property "id" (Value.text id) (
      property "method" (Value.text (method_name method))
        (property "params" (Value.object params) no_properties)))

-- `socket.send(payload)`, which throws on a socket that is still connecting: what is thrown rejects
-- the request's promise, and the entry stays until the timer fires.
unfoldable pub sending : String → ℕ → Value → Result {0} Unit → WsAdapter → WsAdapter
sending id s message (ok done) w = record w { sent = w.sent ++ (s, message) ∷ [] }
sending id s message (thrown e) w = record w { refused = w.refused ++ (id, e) ∷ [] }

unfoldable pub request_on :
    Option ℕ → Method → Properties → Result {0} Unit → WsAdapter → Result String × WsAdapter
unfolding sending
request_on none method params sends w = (thrown (connection_error "WebSocket not connected"), w)
request_on (some s) method params sends w =
    let id = decimal (suc w.request_counter) in
    let w' : WsAdapter = record w {
      request_counter = suc w.request_counter;
      pending = insert id (record { method = method }) w.pending;
    } in
    (ok id, sending id s (message_value id method params) sends w')

-- `request` from where `ensureSocket` has returned: the identifier of the request, or an error.
unfoldable pub request :
    Method → Properties → Result {0} Unit → WsAdapter → Result String × WsAdapter
unfolding request_on
request method params sends w = request_on w.socket method params sends w

-- `reconnect` up to `ensureSocket`, and `close`: `socket.close()` only starts the closing of the
-- socket, whose "close" event comes later.
unfoldable pub disconnect : WsAdapter → WsAdapter
disconnect w = reset_socket w

-- The parameters of the operations.
abbrev pub submit_params : SubmitJobRequest → Properties
submit_params req = property "type" (Value.text req.type) (
    put "payload" req.payload
      (put "maxAttempts" (option_map Value.number req.max_attempts) no_properties))

abbrev pub claim_params : ClaimJobRequest → Properties
claim_params req =
    property "workerId" (Value.text req.worker_id)
      (put "types" (option_map text_array req.types) no_properties)

abbrev pub held_params : HeldJobRequest → Properties
held_params req =
    property "jobId" (Value.text req.job_id)
      (property "workerId" (Value.text req.worker_id) no_properties)
