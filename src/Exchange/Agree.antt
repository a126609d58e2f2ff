-- ===== src/Exchange/Agree.antt =====
-- What the three adapters of packages/client/src/transports give a worker and a producer, side by side.
use osqueue.Base.{
  ◌≡◌, ◌≢◌, inl, inr, sym, or_default, refl, ap, ◌∙◌, String, List, [], ◌∷◌, Option, none, some,
  arith, ◌==◌, string_eq, Bool-cases, ==→≡,
}
use osqueue.Json.{option_map}
use osqueue.Types.{Mutation, JobId, Value, MutationResult, ClaimedJob}
use osqueue.Types.Errors.{ok}
use osqueue.Engine.{Engine}
use osqueue.Broker.{
  ClaimJobInput, SubmitJobInput, submit_job_mutation, submit_job_response, claim_job_mutation,
  claim_job_response, type_or_undefined, wanted_types,
}
use osqueue.Broker.Calls.{
  settle, map_call, submit_job_operation, claim_job_operation, json_bytes, encode_payload,
}
use osqueue.Broker.Service.{
  SubmitJobMessage, ClaimJobMessage, service_submit_job, submit_decoded, service_claim_job,
  claim_job_message, set_or_undefined,
}
use osqueue.Broker.Replies.{submitted_value, claimed_value}
use osqueue.Broker.Routes.{post_jobs, post_claim, replied, reply_of}
use osqueue.Transports.{SubmitJobRequest, ClaimJobRequest, received, submit_result, claim_result}
use osqueue.Transports.Rest.{RestAdapter, on_response, parsed_body, rest_submit_job, rest_claim_job}
use osqueue.Transports.Ws.{Method, submit_params, claim_params}
use osqueue.Transports.Connect.{
  QueueClient, client_submit_job, client_claim_job, wrapped, claimed, claimed_payload, payload_of,
  sent_types,
}
use osqueue.Exchange.{Outcomes, over_ws, settled_as, settled_result, http_response, Fetches, told}
use osqueue.Exchange.Jobs.{
  submitted_input, claimed_input, submit_object, claim_object, handle-submit, handle-claim,
  dispatch_ws-submit, dispatch_ws-claim, claim_result-claimed_value, submit_result-submitted_value,
  rest_request-serve,
}

wanted_types-sent_types :
    (types : Option (List String)) → wanted_types (some (sent_types types)) ≡ wanted_types types
unfolding wanted_types sent_types
wanted_types-sent_types none = refl
wanted_types-sent_types (some []) = refl
wanted_types-sent_types (some (t ∷ ts)) = ground arith

type_or_undefined-set_or_undefined :
    (type : String) → type_or_undefined (set_or_undefined type) ≡ type_or_undefined (some type)
unfolding type_or_undefined
type_or_undefined-set_or_undefined type = ground arith

-- What the Connect adapter makes of the service's message.
claimed-claim_job_message :
    (job : Option ClaimedJob)
    → ((j : ClaimedJob) → job ≡ some j → j.id ≢ "")
    → claimed (wrapped "ClaimJob" (ok (claim_job_message job))) ≡ ok (told job)
unfolding claimed wrapped claimed_payload payload_of claim_job_message
claimed-claim_job_message none named = refl
claimed-claim_job_message (some j) named = elim (Bool-cases (j.id == "")) [
  | inl e ↦ absurd (named j refl (==→≡ j.id "" e))
  | inr e ↦ rw (e, claim_job_message) refl
]

module _ (print : Value → String) (outcome : Outcomes) (g : Engine) (A : RestAdapter)
    (client : QueueClient) where
  settle-claim :
      {B : Type 0} (f : Option ClaimedJob → B) (input : ClaimJobInput) (r : MutationResult)
      → outcome (claim_job_mutation input) ≡ ok r
      → settle outcome (map_call f (claim_job_operation input))
        ≡ ok (f (claim_job_response r.claimed_job))
  unfolding claim_job_operation
  settle-claim f input r e = rw e refl

  claim_mutation-sent_types :
      (worker_id : String) (types : Option (List String))
      → claim_job_mutation record { worker_id = worker_id; types = some (sent_types types) }
        ≡ claim_job_mutation record { worker_id = worker_id; types = types }
  unfolding claim_job_mutation
  claim_mutation-sent_types worker_id types =
      ap (Mutation.claim worker_id) (wanted_types-sent_types types)

  -- A worker is told the same over REST, WebSocket and Connect: the claimed job's identifier, type and
  -- payload, or that there is none. This is so if the broker's commit succeeds, `fetch` and the Connect
  -- client bring what the broker answers, and the job's identifier is not empty.
  pub claim_job-agree :
      (req : ClaimJobRequest) (r : MutationResult)
      → outcome (claim_job_mutation (claimed_input req)) ≡ ok r
      → ((j : ClaimedJob) → claim_job_response r.claimed_job ≡ some j → j.id ≢ "")
      → Fetches print outcome g A post_claim (some (claim_object req))
      → ((m : ClaimJobMessage) → client.claim_job m ≡ settle outcome (service_claim_job m))
      → let answer = told (claim_job_response r.claimed_job) in
        (rest_claim_job A req ≡ some (ok answer))
        × (received claim_result (over_ws outcome g Method.claim_job (claim_params req))
            ≡ some (ok answer))
        × (client_claim_job client req ≡ ok answer)
  unfolding rest_claim_job client_claim_job service_claim_job on_response parsed_body
  claim_job-agree req r committed named fetches serves =
      let job = claim_job_response r.claimed_job in
      let message : ClaimJobMessage = record {
        worker_id = req.worker_id;
        types = sent_types req.types;
      } in
      let by_value : received claim_result (ok (some (claimed_value job))) ≡ some (ok (told job)) =
        ap (option_map ok) (claim_result-claimed_value job) in
      let input = claimed_input req in
      let requested =
        rest_request-serve print outcome g A post_claim (some (claim_object req)) _ fetches
          (handle-claim g req.worker_id req.types) in
      let settled = settle-claim (λ j. replied (claimed_value j)) input r committed in
      let dispatched = dispatch_ws-claim g req.worker_id req.types in
      let same = claim_mutation-sent_types req.worker_id req.types in
      let sent =
        settle-claim claim_job_message
          record { worker_id = req.worker_id; types = some message.types } r
          (ap outcome same ∙ committed) in
      (
        ap (received claim_result) (
              requested
              ∙ ap (λ x. on_response post_claim (ok (http_response print (reply_of x)))) settled)
            ∙ by_value,
        ap
              (λ c.
                received claim_result
                  (settled_result (settled_as Method.claim_job (settle outcome c))))
              dispatched
            ∙ ap (λ x. received claim_result (settled_result (settled_as Method.claim_job x)))
                (settle-claim claimed_value input r committed)
            ∙ by_value,
        ap (λ x. claimed (wrapped "ClaimJob" x)) (serves message ∙ sent)
            ∙ claimed-claim_job_message job named,
      )

  settle-submit :
      {B : Type 0} (f : Option JobId → B) (input : SubmitJobInput) (r : MutationResult)
      → outcome (submit_job_mutation input) ≡ ok r
      → settle outcome (map_call f (submit_job_operation input))
        ≡ ok (f (submit_job_response r.enqueued_ids))
  unfolding submit_job_operation
  settle-submit f input r e = rw e refl

  -- A producer gets the same identifier over REST, WebSocket and Connect, and by the same mutation,
  -- with an empty type read as none. This is so for a request with a payload, if the broker's commit
  -- succeeds with an identifier, and `fetch` and the Connect client bring what the broker answers.
  pub submit_job-agree :
      (req : SubmitJobRequest) (v : Value) (r : MutationResult) (id : JobId)
      → req.payload ≡ some v
      → outcome (submit_job_mutation (submitted_input req)) ≡ ok r
      → submit_job_response r.enqueued_ids ≡ some id
      → Fetches print outcome g A post_jobs (some (submit_object req))
      → ((m : SubmitJobMessage)
          → client.submit_job m
            ≡ settle outcome (map_call (λ i. or_default i "") (service_submit_job m)))
      → (rest_submit_job A req ≡ some (ok id))
        × (received submit_result (over_ws outcome g Method.submit_job (submit_params req))
            ≡ some (ok id))
        × (client_submit_job client req ≡ ok id)
  unfolding rest_submit_job client_submit_job service_submit_job submit_decoded on_response
      parsed_body submit_job_mutation wrapped
  submit_job-agree req v r id paid committed identified fetches serves =
      let input = submitted_input req in
      let message : SubmitJobMessage = record {
        payload = json_bytes v;
        max_attempts = req.max_attempts;
        type = req.type;
      } in
      let by_value : received submit_result
            (ok (some (submitted_value (submit_job_response r.enqueued_ids))))
          ≡ some (ok id) =
        ap (λ i. option_map ok (submit_result (submitted_value i))) identified
        ∙ ap (option_map ok) (submit_result-submitted_value id) in
      let requested =
        rest_request-serve print outcome g A post_jobs (some (submit_object req)) _ fetches
          (handle-submit g req.payload req.type req.max_attempts) in
      let settled = settle-submit (λ i. replied (submitted_value i)) input r committed in
      let dispatched = dispatch_ws-submit g req.type req.payload req.max_attempts in
      let decoded : SubmitJobInput = record {
        payload = some v;
        type = set_or_undefined req.type;
        max_attempts = req.max_attempts;
      } in
      let same : submit_job_mutation decoded ≡ submit_job_mutation input =
        ap
          (λ t.
            Mutation.enqueue
              (record { payload = some v; job_type = t; max_attempts = req.max_attempts } ∷ []))
          (type_or_undefined-set_or_undefined req.type)
        ∙ ap
            (λ p. Mutation.enqueue (
              record {
                payload = p;
                job_type = type_or_undefined (some req.type);
                max_attempts = req.max_attempts;
              }
              ∷ []))
            (sym paid) in
      let sent = settle-submit (λ i. or_default i "") decoded r (ap outcome same ∙ committed) in
      (
        ap (received submit_result) (
              requested
              ∙ ap (λ x. on_response post_jobs (ok (http_response print (reply_of x)))) settled)
            ∙ by_value,
        ap
              (λ c.
                received submit_result
                  (settled_result (settled_as Method.submit_job (settle outcome c))))
              dispatched
            ∙ ap (λ x. received submit_result (settled_result (settled_as Method.submit_job x)))
                (settle-submit submitted_value input r committed)
            ∙ by_value,
        ap
              (λ p.
                wrapped "SubmitJob"
                  (client.submit_job (record message { payload = encode_payload p })))
              paid
            ∙ ap (wrapped "SubmitJob") (serves message ∙ sent)
            ∙ ap (λ i. ok (or_default i "")) identified,
      )
