-- ===== src/Transports/Connect.antt =====
-- packages/client/src/transports/connect.ts: the adapter for Connect. The client that the library
-- generates is a parameter, as is the outcome of creating it; an adapter creates it once and keeps
-- the promise.
use osqueue.Base.{
  String, Bool, true, false, ◌&&◌, List, [], Option, none, some, if◌then◌else◌, ◌==◌, string_eq,
  or_default, ltb, length,
}
use osqueue.Types.{JobId, Value}
use osqueue.Types.Errors.{
  Tag, Thrown, osqueue_error, tagged_error, new_error, no_details, no_cause, Result, ok, thrown,
  wrap_unknown_error,
}
use osqueue.Broker.Calls.{PayloadBytes, encode_payload, decode_payload}
use osqueue.Broker.Service.{
  SubmitJobMessage, ClaimJobMessage, HeldJobMessage, ClaimJobResponse, GetStatsResponse,
  ListJobsResponse,
}
use osqueue.Transports.{SubmitJobRequest, ClaimJobRequest, HeldJobRequest, ClaimJobResult}

-- `Client<typeof QueueService>`
pub record QueueClient : Type 0 where
  pub submit_job : SubmitJobMessage → Result {0} JobId
  pub claim_job : ClaimJobMessage → Result {0} ClaimJobResponse
  pub heartbeat : HeldJobMessage → Result {0} Unit
  pub complete_job : HeldJobMessage → Result {0} Unit
  pub get_stats : Result {0} GetStatsResponse
  pub list_jobs : Result {0} ListJobsResponse

-- `Transport` stands for what `createClient` makes of the transport.
pub record ConnectTransportConfig : Type 0 where
  pub base_url : Option String
  pub transport : Option QueueClient
  pub http_version : Option String

-- The promise of the client, by what it comes to.
pub record ConnectAdapter : Type 0 where
  pub config : ConnectTransportConfig
  pub client_promise : Option (Result QueueClient)

-- `!value`
abbrev pub is_unset : Option String → Bool
is_unset none = true
is_unset (some t) = t == ""

abbrev is_absent : Option QueueClient → Bool
is_absent none = true
is_absent (some c) = false

unfoldable pub create_connect_adapter : ConnectTransportConfig → Result ConnectAdapter
create_connect_adapter config =
    if is_unset config.base_url && is_absent config.transport
    then thrown (
        osqueue_error (
          new_error Tag.transport_config
            "Connect transport requires baseUrl when no transport is provided" no_cause))
    else ok record { config = config; client_promise = none }

wrap_connection : Thrown → Thrown
wrap_connection e = wrap_unknown_error e (λ message c. new_error Tag.transport_connection message c)

made : Result QueueClient → Result QueueClient
unfolding wrap_connection
made (ok client) = ok client
made (thrown e) = thrown (wrap_connection e)

-- `createNodeTransport` and `createClient`, for a URL and a version.
abbrev pub Connecting : Type 0
Connecting = String → String → Result QueueClient

fresh_client : Connecting → ConnectTransportConfig → Result QueueClient
unfolding made
fresh_client connect config = elim config.transport [
  | none ↦ made (connect (or_default config.base_url "") (or_default config.http_version "1.1"))
  | some client ↦ ok client
]

unfoldable pub get_client : Connecting → ConnectAdapter → Result QueueClient × ConnectAdapter
unfolding fresh_client
get_client connect A = elim A.client_promise [
  | none ↦
      let client = fresh_client connect A.config in
      (client, record A { client_promise = some client })
  | some client ↦ (client, A)
]

-- The `catch` of every operation.
unfoldable pub caught : String → Thrown → Thrown
caught method e = wrap_unknown_error e (λ message c.
    tagged_error Tag.transport_request message (record no_details { method = some method }) c)

module _ {A : Type 0} where
  unfoldable pub wrapped : String → Result A → Result A
  unfolding caught
  wrapped method (ok a) = ok a
  wrapped method (thrown e) = thrown (caught method e)

-- `payload ? JSON.parse(decoder.decode(payload)) : null`
unfoldable pub payload_of : Option PayloadBytes → Result Value
payload_of none = ok Value.null
payload_of (some bytes) = decode_payload bytes

unfoldable pub claimed_payload : ClaimJobResponse → Result Value → Result ClaimJobResult
claimed_payload response (thrown e) = thrown e
claimed_payload response (ok payload) =
    ok record { job_id = response.job_id; type = response.type; payload = payload }

unfoldable pub claimed : Result ClaimJobResponse → Result ClaimJobResult
unfolding payload_of claimed_payload
claimed (thrown e) = thrown e
claimed (ok response) = claimed_payload response (payload_of response.payload)

-- `if (req.types && req.types.length > 0)`
unfoldable pub sent_types : Option (List String) → List String
sent_types none = []
sent_types (some types) = if ltb 0 (length types) then types else []

module _ (client : QueueClient) where
  unfoldable pub client_submit_job : SubmitJobRequest → Result {0} JobId
  unfolding wrapped
  client_submit_job req = wrapped "SubmitJob" (
      client.submit_job record {
        payload = encode_payload req.payload;
        max_attempts = req.max_attempts;
        type = req.type;
      })

  unfoldable pub client_claim_job : ClaimJobRequest → Result ClaimJobResult
  unfolding wrapped claimed sent_types
  client_claim_job req = claimed (
      wrapped "ClaimJob"
        (client.claim_job record { worker_id = req.worker_id; types = sent_types req.types }))

  unfoldable pub client_heartbeat : HeldJobRequest → Result {0} Unit
  unfolding wrapped
  client_heartbeat req =
      wrapped "Heartbeat"
        (client.heartbeat record { job_id = req.job_id; worker_id = req.worker_id })

  unfoldable pub client_complete_job : HeldJobRequest → Result {0} Unit
  unfolding wrapped
  client_complete_job req =
      wrapped "CompleteJob"
        (client.complete_job record { job_id = req.job_id; worker_id = req.worker_id })

  unfoldable pub client_get_stats : Result {0} GetStatsResponse
  unfolding wrapped
  client_get_stats = wrapped "GetStats" client.get_stats

  unfoldable pub client_list_jobs : Result {0} ListJobsResponse
  unfolding wrapped
  client_list_jobs = wrapped "ListJobs" client.list_jobs

module _ {A : Type 0} where
  -- `const client = await getClient()`, and what the operation does with it.
  unfoldable pub with_client :
      Connecting → ConnectAdapter → (QueueClient → Result A) → Result A × ConnectAdapter
  unfolding get_client
  with_client connect adapter operation =
      let (client, adapter') = get_client connect adapter in
      (elim client [ ok c ↦ operation c | thrown e ↦ thrown e ], adapter')

abbrev reconnected : Result QueueClient × ConnectAdapter → Result {0} Unit × ConnectAdapter
reconnected (ok client, A) = (ok tt, A)
reconnected (thrown e, A) = (thrown e, A)

unfoldable pub connect_reconnect : Connecting → ConnectAdapter → Result {0} Unit × ConnectAdapter
unfolding get_client
connect_reconnect connect A = reconnected (get_client connect (record A { client_promise = none }))

unfoldable pub connect_close : ConnectAdapter → ConnectAdapter
connect_close A = record A { client_promise = none }
