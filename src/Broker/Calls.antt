-- ===== src/Broker/Calls.antt =====
-- packages/broker/src/operations.ts: the operations as the handlers of the broker call them, the
-- mutation together with the response, and the bytes of payloads.
use osqueue.Base.{String, Option, none, some}
use osqueue.Types.{JobId, Value, Mutation, MutationResult, ClaimedJob}
use osqueue.Types.Errors.{Thrown, native_error, Result, ok, thrown}
use osqueue.Broker.{
  SubmitJobInput, submit_job_mutation, submit_job_response, ClaimJobInput, claim_job_mutation,
  claim_job_response, HeldJobInput, heartbeat_mutation, complete_job_mutation,
}

-- What a handler does: it awaits `engine.submit` once and goes on with the result, or it returns or
-- throws without that.
pub data Call (A : Type 0) : Type 0 where
  submitting : Mutation → (MutationResult → A) → Call A
  returning : A → Call A
  throwing : Thrown → Call A

module _ {A B : Type 0} where
  abbrev pub map_call : (A → B) → Call A → Call B
  map_call f (submitting mutation respond) = submitting mutation (λ r. f (respond r))
  map_call f (returning a) = returning (f a)
  map_call f (throwing e) = throwing e

  abbrev pub map_result : (A → B) → Result A → Result B
  map_result f (ok a) = ok (f a)
  map_result f (thrown e) = thrown e

module _ {A : Type 0} where
  -- What the handler returns or throws, where `outcome` is what the promise of a submitted mutation
  -- becomes.
  abbrev pub settle : (Mutation → Result MutationResult) → Call A → Result A
  settle outcome (submitting mutation respond) = map_result respond (outcome mutation)
  settle outcome (returning a) = ok a
  settle outcome (throwing e) = thrown e

unfoldable pub submit_job_operation : SubmitJobInput → Call (Option JobId)
submit_job_operation input =
    submitting (submit_job_mutation input) (λ r. submit_job_response r.enqueued_ids)

unfoldable pub claim_job_operation : ClaimJobInput → Call (Option ClaimedJob)
claim_job_operation input =
    submitting (claim_job_mutation input) (λ r. claim_job_response r.claimed_job)

unfoldable pub heartbeat_operation : HeldJobInput → Call Unit
heartbeat_operation input = submitting (heartbeat_mutation input) (λ r. tt)

unfoldable pub complete_job_operation : HeldJobInput → Call Unit
complete_job_operation input = submitting (complete_job_mutation input) (λ r. tt)

-- The bytes of a payload, by what they hold: nothing, the text of a JSON value, or other bytes, with
-- the message of the error that parsing these throws.
pub data PayloadBytes : Type 0 where
  no_bytes : PayloadBytes
  json_bytes : Value → PayloadBytes
  other_bytes : String → PayloadBytes

-- `JSON.stringify(undefined)` is undefined, which the encoder encodes as nothing.
abbrev pub encode_payload : Option Value → PayloadBytes
encode_payload none = no_bytes
encode_payload (some v) = json_bytes v

abbrev pub decode_payload : PayloadBytes → Result Value
decode_payload no_bytes = thrown (native_error "Unexpected end of JSON input")
decode_payload (json_bytes v) = ok v
decode_payload (other_bytes message) = thrown (native_error message)
