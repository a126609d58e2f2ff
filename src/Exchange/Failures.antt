-- ===== src/Exchange/Failures.antt =====
-- What the client's REST adapter throws where a handler of the broker throws.
use osqueue.Base.{
  ◌≡◌, ◌≢◌, refl, ap, ◌∙◌, String, ◌<>◌, Option, some, false, Bool-cases, inl, inr, ◌==◌, string_eq,
  ==→≡,
}
use osqueue.Base.Decimal.{decimal}
use osqueue.Json.{get, string_of}
use osqueue.Types.{Value}
use osqueue.Types.Errors.{
  Tag, Thrown, osqueue_error, foreign_tagged, native_error, other_value, tagged_error, no_details,
  no_cause, ok, thrown, is_tagged_error, wrap_unknown_error,
}
use osqueue.Engine.{Engine}
use osqueue.Broker.Calls.{Call, settle}
use osqueue.Broker.Replies.{ErrorPayload, error_payload, error_value}
use osqueue.Broker.Routes.{Route, Reply, handle, on_error, reply_of}
use osqueue.Transports.Rest.{
  RestAdapter, rest_request, on_response, error_parts, message_or, request_error, method_of,
  path_of,
}
use osqueue.Exchange.{Outcomes, Fetches, http_response}
use osqueue.Exchange.Jobs.{rest_request-serve}

-- The error handler sends the payload that WebSocket messages carry too.
on_error-error_payload :
    (e : Thrown) → on_error e ≡ record { status = 500; body = some (error_value (error_payload e)) }
unfolding on_error error_payload is_tagged_error wrap_unknown_error
on_error-error_payload (osqueue_error e) = refl
on_error-error_payload (foreign_tagged t message as_string) = refl
on_error-error_payload (native_error message) = refl
on_error-error_payload (other_value as_string) = refl

differ : (s t : String) → s ≢ t → (s == t) ≡ false
differ s t h = elim (Bool-cases (s == t)) [ inl e ↦ absurd (h (==→≡ s t e)) | inr e ↦ e ]

on_response-error_value :
    (print : Value → String) (route : Route) (p : ErrorPayload)
    → print (error_value p) ≢ ""
    → p.message ≢ ""
    → on_response route
        (ok (http_response print record { status = 500; body = some (error_value p) }))
      ≡ thrown (request_error route 500 (some p.tag, p.message))
unfolding on_response error_parts message_or get string_eq string_of
on_response-error_value print route p printed spoken =
    rw (differ (print (error_value p)) "" printed, differ p.message "" spoken) refl

module _ (print : Value → String) (outcome : Outcomes) (g : Engine) (A : RestAdapter) where
  -- An error that a handler of a route throws reaches the client as a `TransportRequestError` with the
  -- status 500, the route's method and path, the tag of the broker's error as the remote tag, and its
  -- message. This is so if the message is not empty, `JSON.stringify` does not print the payload as
  -- the empty text, and `fetch` brings the broker's reply.
  pub rest_request-on_error :
      (route : Route) (body : Option Value) (call : Call Reply) (e : Thrown)
      → handle g route body ≡ some call
      → settle outcome call ≡ thrown e
      → (error_payload e).message ≢ ""
      → print (error_value (error_payload e)) ≢ ""
      → Fetches print outcome g A route body
      → rest_request A route body
        ≡ thrown (
            osqueue_error (
              tagged_error Tag.transport_request
                ("REST "
                  <> method_of route
                  <> " "
                  <> path_of route
                  <> " failed: "
                  <> decimal 500
                  <> " "
                  <> (error_payload e).message)
                (record no_details {
                  method = some (method_of route);
                  path = some (path_of route);
                  status = some 500;
                  remote_tag = some (error_payload e).tag;
                })
                no_cause))
  unfolding request_error
  rest_request-on_error route body call e handled failed spoken printed fetches =
      rest_request-serve print outcome g A route body call fetches handled
      ∙ ap (λ x. on_response route (ok (http_response print (reply_of x)))) failed
      ∙ ap (λ x. on_response route (ok (http_response print x))) (on_error-error_payload e)
      ∙ on_response-error_value print route (error_payload e) printed spoken
