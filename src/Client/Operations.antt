-- ===== src/Client/Operations.antt =====
-- packages/client/src/client.ts: `reconnect`, `getAdapter` and the operations.
use osqueue.Base.{String, List, Option, none, some, if◌then◌else◌, ◌==◌, string_eq}
use osqueue.Types.{JobId, WorkerId, Value}
use osqueue.Types.Errors.{native_error, ok, thrown}
use osqueue.Storage.{StorageBackend}
use osqueue.Engine.{Codec}
use osqueue.Broker.Service.{GetStatsResponse, ListJobsResponse}
use osqueue.Transports.{SubmitJobRequest, ClaimJobResult}
use osqueue.Client.{Acts, Adapters, OsqueueClient, set_adapter, Calls, connect}

-- The job that `claimJob` returns.
pub record ReceivedJob : Type 0 where
  pub job_id : JobId
  pub type : String
  pub payload : Value

-- `if (!result.jobId) return null`
unfoldable pub received_job : ClaimJobResult → Option ReceivedJob
received_job result = elim result.job_id [
  | none ↦ none
  | some id ↦
      if id == ""
      then none
      else some record { job_id = id; type = result.type; payload = result.payload }
]

module _ {A : Type 0} (I : Adapters A) (K : Codec) (S : StorageBackend K.Bytes) where
  open S use {State}

  -- `await this.connect(); if (!this.adapter) { ...; await this.connect(); }`. The wait takes
  -- `discoveryRetryMs`.
  unfoldable pub connect_again : Option A → OsqueueClient A → State → Calls I K S Unit
  connect_again (some a) c s = (ok tt, c, s)
  connect_again none c s = connect I K S c s

  unfoldable pub retry : Calls I K S Unit → Calls I K S Unit
  unfolding connect_again
  retry (thrown e, c, s) = (thrown e, c, s)
  retry (ok done, c, s) = connect_again c.adapter c s

  -- Without an adapter: at the URL that is known, or by discovery.
  unfoldable pub renew_at : Option String → OsqueueClient A → State → Calls I K S Unit
  unfolding retry
  renew_at none c s = retry (connect I K S c s)
  renew_at (some url) c s =
      if url == ""
      then retry (connect I K S c s)
      else let (r, c') = set_adapter I url c in (r, c', s)

  -- `await this.adapter?.close?.(); this.adapter = null`, and what follows.
  unfoldable pub closed : Acts A Unit → OsqueueClient A → State → Calls I K S Unit
  unfolding renew_at
  closed (thrown e, a) c s = (thrown e, record c { adapter = some a }, s)
  closed (ok done, a) c s = renew_at c.broker_url (record c { adapter = none }) s

  unfoldable pub reconnected : Option (Acts A Unit) → A → OsqueueClient A → State → Calls I K S Unit
  unfolding closed
  reconnected (some (r, a')) a c s = (r, record c { adapter = some a' }, s)
  reconnected none a c s = closed (I.close a) c s

  unfoldable pub reconnect_from : Option A → OsqueueClient A → State → Calls I K S Unit
  unfolding reconnected renew_at
  reconnect_from (some a) c s = reconnected (I.reconnect a) a c s
  reconnect_from none c s = renew_at c.broker_url c s

  unfoldable pub reconnect : OsqueueClient A → State → Calls I K S Unit
  unfolding reconnect_from
  reconnect c s = reconnect_from c.adapter c s

  -- `await this.adapter!.operation(...)`; without an adapter the property access throws.
  unfoldable pub acting :
      {X : Type 0} → (A → Acts A X) → Option A → OsqueueClient A → State → Calls I K S X
  acting operation none c s = (thrown (native_error "Cannot read properties of null"), c, s)
  acting operation (some a) c s =
      let (r, a') = operation a in (r, record c { adapter = some a' }, s)

  unfoldable pub after_connect : {X : Type 0} → (A → Acts A X) → Calls I K S Unit → Calls I K S X
  unfolding acting
  after_connect operation (thrown e, c, s) = (thrown e, c, s)
  after_connect operation (ok done, c, s) = acting operation c.adapter c s

  -- `getAdapter`, and an operation of the adapter.
  unfoldable pub with_adapter :
      {X : Type 0} → (A → Acts A X) → OsqueueClient A → State → Calls I K S X
  unfolding acting after_connect
  with_adapter operation c s = elim c.adapter [
    | some a ↦ acting operation (some a) c s
    | none ↦ after_connect operation (connect I K S c s)
  ]

  unfoldable pub submit_job : SubmitJobRequest → OsqueueClient A → State → Calls I K S JobId
  unfolding with_adapter
  submit_job req c s = with_adapter (I.submit_job req) c s

  answer_of : Calls I K S ClaimJobResult → Calls I K S (Option ReceivedJob)
  unfolding received_job
  answer_of (thrown e, c, s) = (thrown e, c, s)
  answer_of (ok result, c, s) = (ok (received_job result), c, s)

  unfoldable pub claim_job :
      WorkerId → Option (List String) → OsqueueClient A → State → Calls I K S (Option ReceivedJob)
  unfolding with_adapter answer_of
  claim_job worker_id types c s =
      answer_of (with_adapter (I.claim_job record { worker_id = worker_id; types = types }) c s)

  unfoldable pub heartbeat : JobId → WorkerId → OsqueueClient A → State → Calls I K S Unit
  unfolding with_adapter
  heartbeat job_id worker_id c s =
      with_adapter (I.heartbeat record { job_id = job_id; worker_id = worker_id }) c s

  unfoldable pub complete_job : JobId → WorkerId → OsqueueClient A → State → Calls I K S Unit
  unfolding with_adapter
  complete_job job_id worker_id c s =
      with_adapter (I.complete_job record { job_id = job_id; worker_id = worker_id }) c s

  unfoldable pub get_stats : OsqueueClient A → State → Calls I K S GetStatsResponse
  unfolding with_adapter
  get_stats c s = with_adapter I.get_stats c s

  unfoldable pub list_jobs : OsqueueClient A → State → Calls I K S ListJobsResponse
  unfolding with_adapter
  list_jobs c s = with_adapter I.list_jobs c s
