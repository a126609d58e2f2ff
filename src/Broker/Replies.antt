-- ===== src/Broker/Replies.antt =====
-- packages/broker/src/server.ts: the JSON values that the broker answers with over REST and over
-- WebSocket, and the payload of an error.
use osqueue.Base.{String, List, [], ◌∷◌, Option, none, some}
use osqueue.Json.{put, option_map}
use osqueue.Types.{
  JobId, Value, Elements, no_elements, element, Properties, no_properties, property, ClaimedJob,
}
use osqueue.Types.Errors.{
  Tag, tag_name, tag_of, message_of, Thrown, osqueue_error, foreign_tagged, native_error,
  other_value, new_error, wrap_unknown_error,
}
use osqueue.Broker.{QueueStatsSnapshot, QueueJobSnapshot}
use osqueue.Broker.Service.{status_name}

abbrev pub submitted_value : Option JobId → Value
submitted_value id = Value.object (put "jobId" (option_map Value.text id) no_properties)

abbrev pub claimed_value : Option ClaimedJob → Value
claimed_value none = Value.object no_properties
claimed_value (some job) = Value.object (
    property "jobId" (Value.text job.id)
      (put "payload" job.payload (put "type" (option_map Value.text job.type) no_properties)))

-- The properties of the statistics, in front of others.
abbrev pub stats_properties : QueueStatsSnapshot → Properties → Properties
stats_properties stats rest = property "total" (Value.number stats.total) (
    property "unclaimed" (Value.number stats.unclaimed) (
      property "inProgress" (Value.number stats.in_progress) (
        property "completedTotal" (Value.number stats.completed_total)
          (property "brokerAddress" (Value.text stats.broker_address) rest))))

abbrev pub stats_value : QueueStatsSnapshot → Value
stats_value stats = Value.object (stats_properties stats no_properties)

abbrev pub job_value : QueueJobSnapshot → Value
job_value job = Value.object (
    property "id" (Value.text job.id) (
      property "status" (Value.text (status_name job.status)) (
        put "payload" job.payload (
          put "type" (option_map Value.text job.type) (
            put "workerId" (option_map Value.text job.worker_id) (
              property "createdAt" (Value.number job.created_at) (
                property "attempts" (Value.number job.attempts) (
                  property "maxAttempts" (Value.number job.max_attempts)
                    (property "heartbeat" (Value.number job.heartbeat) no_properties)))))))))

abbrev pub job_values : List QueueJobSnapshot → Elements
job_values [] = no_elements
job_values (job ∷ jobs) = element (job_value job) (job_values jobs)

-- `{ ...snapshot.stats, jobs: snapshot.jobs }`
abbrev pub snapshot_value : List QueueJobSnapshot × QueueStatsSnapshot → Value
snapshot_value (jobs, stats) =
    Value.object
      (stats_properties stats (property "jobs" (Value.array (job_values jobs)) no_properties))

pub record ErrorPayload : Type 0 where
  pub tag : String
  pub message : String

-- `_tag` and `message` of a tagged error; the last two cases do not occur.
abbrev pub tag_and_message : Thrown → ErrorPayload
tag_and_message (osqueue_error e) = record { tag = tag_name (tag_of e); message = message_of e }
tag_and_message (foreign_tagged t message as_string) = record { tag = t; message = message }
tag_and_message (native_error message) = record { tag = ""; message = message }
tag_and_message (other_value as_string) = record { tag = ""; message = as_string }

-- `wrapUnknownError(error, (message, cause) => new BrokerProtocolError(message, { cause }))`
abbrev pub wrap_protocol : Thrown → Thrown
wrap_protocol e = wrap_unknown_error e (λ message c. new_error Tag.broker_protocol message c)

unfoldable pub error_payload : Thrown → ErrorPayload
error_payload e = tag_and_message (wrap_protocol e)

abbrev pub error_value : ErrorPayload → Value
error_value payload = Value.object (
    property "_tag" (Value.text payload.tag)
      (property "message" (Value.text payload.message) no_properties))
