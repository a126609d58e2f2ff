-- ===== src/Broker/Dispatch.antt =====
-- packages/broker/src/server.ts: the messages of a WebSocket, `dispatchWs` and the answers. A message
-- is the JSON value of its text, and `none` stands for a text that is not JSON.
use osqueue.Base.{
  ℕ, String, ◌<>◌, true, false, List, [], ◌∷◌, Option, none, some, if◌then◌else◌, ◌==◌, string_eq,
}
use osqueue.Json.{get, not_null, string_of}
use osqueue.Types.{
  Value, Elements, no_elements, element, no_properties, property, Mutation, MutationResult,
}
use osqueue.Types.Errors.{
  Tag, osqueue_error, tagged_error, no_details, no_cause, Result, ok, thrown,
}
use osqueue.Engine.{Engine, get_cached_state}
use osqueue.Broker.{get_queue_stats, get_queue_snapshot}
use osqueue.Broker.Calls.{
  Call, returning, throwing, map_call, settle, submit_job_operation, claim_job_operation,
  heartbeat_operation, complete_job_operation,
}
use osqueue.Broker.Replies.{
  submitted_value, claimed_value, stats_value, snapshot_value, ErrorPayload, error_payload,
  error_value,
}

-- `value.name`, where a value that is not an object has no such property.
abbrev pub member : String → Value → Option Value
member name (Value.object ps) = get name ps
member name _ = none

-- `params.name`: `message?.params ?? {}` is an object, or another value without such a property.
abbrev pub param : String → Option Value → Option Value
param name none = none
param name (some v) = member name v

-- `String(value ?? "")`
unfoldable pub text_or_empty : Option Value → String
text_or_empty none = ""
text_or_empty (some Value.null) = ""
text_or_empty (some v) = string_of v

abbrev pub if_text : Option Value → Option String
if_text (some (Value.text t)) = some t
if_text _ = none

abbrev pub if_number : Option Value → Option ℕ
if_number (some (Value.number n)) = some n
if_number _ = none

abbrev pub strings_of : Elements → List String
strings_of no_elements = []
strings_of (element v rest) = string_of v ∷ strings_of rest

abbrev pub if_array : Option Value → Option (List String)
if_array (some (Value.array xs)) = some (strings_of xs)
if_array _ = none

-- `String(method)`
method_text : Option Value → String
method_text none = "undefined"
method_text (some v) = string_of v

unsupported : Option Value → Call Value
unfolding method_text
unsupported method = throwing (
    osqueue_error (
      tagged_error Tag.broker_protocol ("Unsupported WS method: " <> method_text method)
        (record no_details { method = some (method_text method) }) no_cause))

abbrev empty_object : Value
empty_object = Value.object no_properties

-- The cases of the switch.
module _ (g : Engine) (params : Option Value) where
  unfoldable pub dispatch_named : Option Value → String → Call Value
  unfolding text_or_empty unsupported
  dispatch_named method name =
      if name == "submitJob"
      then map_call submitted_value (
          submit_job_operation record {
            payload = param "payload" params;
            type = if_text (param "type" params);
            max_attempts = if_number (param "maxAttempts" params);
          })
      else if name == "claimJob"
      then map_call claimed_value (
          claim_job_operation record {
            worker_id = text_or_empty (param "workerId" params);
            types = if_array (param "types" params);
          })
      else if name == "heartbeat"
      then map_call (λ done. empty_object)
          (heartbeat_operation record {
            job_id = text_or_empty (param "jobId" params);
            worker_id = text_or_empty (param "workerId" params);
          })
      else if name == "completeJob"
      then map_call (λ done. empty_object)
          (complete_job_operation record {
            job_id = text_or_empty (param "jobId" params);
            worker_id = text_or_empty (param "workerId" params);
          })
      else if name == "getStats"
      then returning (stats_value (get_queue_stats (get_cached_state g)))
      else if name == "listJobs"
      then returning (snapshot_value (get_queue_snapshot g))
      else unsupported method

  unfoldable pub dispatch_ws : Option Value → Call Value
  unfolding dispatch_named unsupported
  dispatch_ws (some (Value.text name)) = dispatch_named (some (Value.text name)) name
  dispatch_ws method = unsupported method

-- `message?.id ?? null`
abbrev pub or_null : Option Value → Value
or_null none = Value.null
or_null (some v) = v

unfoldable pub ws_failure : Value → ErrorPayload → Value
ws_failure id payload = Value.object (
    property "id" id
      (property "ok" (Value.boolean false) (property "error" (error_value payload) no_properties)))

unfoldable pub ws_answer : Value → Result Value → Value
unfolding ws_failure
ws_answer id (ok result) =
    Value.object (
      property "id" id
        (property "ok" (Value.boolean true) (property "result" result no_properties)))
ws_answer id (thrown e) = ws_failure id (error_payload e)

-- The handler of a message: what the socket sends, where `outcome` is what the promise of a submitted
-- mutation becomes.
unfoldable pub on_message : (Mutation → Result MutationResult) → Engine → Option Value → Value
unfolding ws_failure ws_answer
on_message outcome g none =
    ws_failure Value.null record { tag = "BrokerProtocolError"; message = "Invalid JSON" }
on_message outcome g (some message) =
    ws_answer (or_null (member "id" message)) (
      settle outcome (dispatch_ws g (not_null (member "params" message)) (member "method" message)))
