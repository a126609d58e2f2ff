-- ===== src/Exchange/Jobs.antt =====
-- Submitting and claiming over REST, over WebSocket and over Connect: the adapters of
-- packages/client/src/transports against packages/broker/src/server.ts and service.ts.
use osqueue.Base.{ℕ, ◌≡◌, refl, ap, String, List, [], ◌∷◌, Option, none, some, string_eq}
use osqueue.Json.{get, put, option_map, texts, string_of, as_text_array-text_array}
use osqueue.Types.{JobId, Value, no_properties, property, ClaimedJob}
use osqueue.Types.Errors.{ok}
use osqueue.Engine.{Engine}
use osqueue.Broker.{SubmitJobInput, ClaimJobInput}
use osqueue.Broker.Calls.{Call, map_call, settle, submit_job_operation, claim_job_operation}
use osqueue.Broker.Replies.{submitted_value, claimed_value}
use osqueue.Broker.Dispatch.{dispatch_ws, dispatch_named, strings_of, text_or_empty}
use osqueue.Broker.Routes.{Route, post_jobs, post_claim, Reply, handle, replied, serve, reply_of}
use osqueue.Transports.{SubmitJobRequest, ClaimJobRequest, submit_result, claim_result}
use osqueue.Transports.Rest.{RestAdapter, on_response, rest_request}
use osqueue.Transports.Ws.{submit_params, claim_params}
use osqueue.Exchange.{Outcomes, http_response, Fetches, told}

-- What the broker reads from the bodies and the parameters of the adapters.
abbrev pub submitted_input : SubmitJobRequest → SubmitJobInput
submitted_input req = record {
  payload = req.payload;
  type = some req.type;
  max_attempts = req.max_attempts;
}

abbrev pub claimed_input : ClaimJobRequest → ClaimJobInput
claimed_input req = record { worker_id = req.worker_id; types = req.types }

abbrev pub submit_object : SubmitJobRequest → Value
submit_object req = Value.object (
    put "payload" req.payload (
      property "type" (Value.text req.type)
        (put "maxAttempts" (option_map Value.number req.max_attempts) no_properties)))

abbrev pub claim_object : ClaimJobRequest → Value
claim_object req = Value.object (claim_params req)

pub handle-submit :
    (g : Engine) (payload : Option Value) (type : String) (max_attempts : Option ℕ)
    → let req : SubmitJobRequest = record {
      type = type;
      payload = payload;
      max_attempts = max_attempts;
    } in
      handle g post_jobs (some (submit_object req))
      ≡ some (
          map_call
            (λ id. replied (submitted_value id))
            (submit_job_operation (submitted_input req)))
unfolding handle get string_eq
handle-submit g none type none = refl
handle-submit g none type (some n) = refl
handle-submit g (some v) type none = refl
handle-submit g (some v) type (some n) = refl

pub handle-claim :
    (g : Engine) (worker_id : String) (types : Option (List String))
    → let req : ClaimJobRequest = record { worker_id = worker_id; types = types } in
      handle g post_claim (some (claim_object req))
      ≡ some
          (map_call (λ job. replied (claimed_value job)) (claim_job_operation (claimed_input req)))
unfolding handle get string_eq
handle-claim g worker_id none = refl
handle-claim g worker_id (some types) = rw (as_text_array-text_array types) refl

pub dispatch_ws-submit :
    (g : Engine) (type : String) (payload : Option Value) (max_attempts : Option ℕ)
    → let req : SubmitJobRequest = record {
      type = type;
      payload = payload;
      max_attempts = max_attempts;
    } in
      dispatch_ws g (some (Value.object (submit_params req))) (some (Value.text "submitJob"))
      ≡ map_call submitted_value (submit_job_operation (submitted_input req))
unfolding dispatch_ws dispatch_named get string_eq
dispatch_ws-submit g type none none = refl
dispatch_ws-submit g type none (some n) = refl
dispatch_ws-submit g type (some v) none = refl
dispatch_ws-submit g type (some v) (some n) = refl

strings_of-texts : (ts : List String) → strings_of (texts ts) ≡ ts
unfolding string_of
strings_of-texts [] = refl
strings_of-texts (t ∷ ts) = ap (◌∷◌ t) (strings_of-texts ts)

pub dispatch_ws-claim :
    (g : Engine) (worker_id : String) (types : Option (List String))
    → let req : ClaimJobRequest = record { worker_id = worker_id; types = types } in
      dispatch_ws g (some (Value.object (claim_params req))) (some (Value.text "claimJob"))
      ≡ map_call claimed_value (claim_job_operation (claimed_input req))
unfolding dispatch_ws dispatch_named get string_eq text_or_empty string_of
dispatch_ws-claim g worker_id none = refl
dispatch_ws-claim g worker_id (some types) = rw (strings_of-texts types) refl

pub claim_result-claimed_value :
    (job : Option ClaimedJob) → claim_result (claimed_value job) ≡ some (told job)
unfolding claim_result get string_eq
claim_result-claimed_value none = refl
claim_result-claimed_value (some job) = by_fields job.payload job.type
  where
    by_fields :
        (payload : Option Value) (type : Option String)
        → claim_result (claimed_value (some (record job { payload = payload; type = type })))
          ≡ some (told (some (record job { payload = payload; type = type })))
    by_fields none none = refl
    by_fields none (some t) = refl
    by_fields (some v) none = refl
    by_fields (some v) (some t) = refl

pub submit_result-submitted_value :
    (id : JobId) → submit_result (submitted_value (some id)) ≡ some id
unfolding submit_result get string_eq
submit_result-submitted_value id = refl

-- What the REST adapter makes of a reply.
module _ (print : Value → String) (outcome : Outcomes) (g : Engine) (A : RestAdapter) where
  pub rest_request-serve :
      (route : Route) (body : Option Value) (call : Call Reply)
      → Fetches print outcome g A route body
      → handle g route body ≡ some call
      → rest_request A route body
        ≡ on_response route (ok (http_response print (reply_of (settle outcome call))))
  unfolding rest_request serve
  rest_request-serve route body call fetches e = ap (on_response route) (
      fetches (reply_of (settle outcome call))
        (ap (option_map (λ c. reply_of (settle outcome c))) e))
