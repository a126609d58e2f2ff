-- ===== src/Exchange/Messages.antt =====
-- A request of the adapter of packages/client/src/transports/ws.ts through the handler of
-- packages/broker/src/server.ts and back.
use osqueue.Base.{
  ℕ, suc, ◌≡◌, refl, sym, ap, ◌∙◌, subst, String, [], ◌∷◌, ◌++◌, some, string_eq, ==_refl,
}
use osqueue.Base.Decimal.{decimal}
use osqueue.Base.Dict.{lookup, insert, lookup-insert, erase-insert}
use osqueue.Json.{get, string_of}
use osqueue.Types.{Value, Properties}
use osqueue.Types.Errors.{Result, ok, thrown}
use osqueue.Engine.{Engine}
use osqueue.Broker.Calls.{settle}
use osqueue.Broker.Replies.{error_payload}
use osqueue.Broker.Dispatch.{dispatch_ws, on_message, member, ws_answer, ws_failure, text_or_empty}
use osqueue.Transports.Ws.{
  Method, method_name, PendingRequest, WsAdapter, request, request_on, sending, handle_message,
  settlement_of, settle_request, message_value,
}
use osqueue.Transports.Ws.Once.{Reaches, Reaches-Accounted, fresh}
use osqueue.Exchange.{Outcomes, settled_as}

-- The members of an answer.
settlement_of-ws_answer :
    (method : Method) (id : Value) (r : Result Value)
    → settlement_of method (ws_answer id r) ≡ settled_as method r
unfolding settlement_of ws_answer ws_failure get string_eq error_payload string_of
settlement_of-ws_answer method id (ok v) = refl
settlement_of-ws_answer method id (thrown e) = refl

id_of_answer :
    (id : String) (r : Result Value)
    → text_or_empty (member "id" (ws_answer (Value.text id) r)) ≡ id
unfolding text_or_empty ws_answer ws_failure get string_eq string_of
id_of_answer id (ok v) = refl
id_of_answer id (thrown e) = refl

handle_message-pending :
    (id : String) (req : PendingRequest) (m : Value) (w : WsAdapter)
    → text_or_empty (member "id" m) ≡ id
    → lookup id w.pending ≡ some req
    → handle_message (some m) w ≡ settle_request id (settlement_of req.method m) w
unfolding handle_message
handle_message-pending id req m w named e =
    subst
      (λ i.
        lookup i w.pending ≡ some req
        → handle_message (some m) w ≡ settle_request i (settlement_of req.method m) w)
      named (λ found. rw (found, handle_message) refl) e

handle_message-ws_answer :
    (id : String) (req : PendingRequest) (r : Result Value) (w : WsAdapter)
    → lookup id w.pending ≡ some req
    → handle_message (some (ws_answer (Value.text id) r)) w
      ≡ settle_request id (settled_as req.method r) w
handle_message-ws_answer id req r w e =
    handle_message-pending id req (ws_answer (Value.text id) r) w (id_of_answer id r) e
    ∙ ap (λ s. settle_request id s w) (settlement_of-ws_answer req.method (Value.text id) r)

on_message-message_value :
    (outcome : Outcomes) (g : Engine) (id : String) (method : Method) (params : Properties)
    → on_message outcome g (some (message_value id method params))
      ≡ ws_answer (Value.text id) (
          settle outcome
            (dispatch_ws g (some (Value.object params)) (some (Value.text (method_name method)))))
unfolding on_message get string_eq
on_message-message_value outcome g id method params = refl

-- The adapter that awaits the answer to its next request.
abbrev asking : Method → Properties → ℕ → WsAdapter → WsAdapter
asking method params s w =
    let id = decimal (suc w.request_counter) in
    record w {
      request_counter = suc w.request_counter;
      pending = insert id (record { method = method }) w.pending;
      sent = w.sent ++ (s, message_value id method params) ∷ [];
    }

request-asking :
    (method : Method) (params : Properties) (s : ℕ) (w : WsAdapter)
    → w.socket ≡ some s
    → request method params (ok tt) w
      ≡ (ok (decimal (suc w.request_counter)), asking method params s w)
unfolding request request_on sending
request-asking method params s w e = ap (λ socket. request_on socket method params (ok tt) w) e

-- A request that is sent, handled by the broker and answered is settled with what `dispatchWs` returned
-- for its method and its parameters, or with the message and the tag of what was thrown; the other
-- requests stay as they were. This is so after any calls and events, if the adapter has a socket and
-- sending does not throw.
pub request-on_message-handle_message :
    (outcome : Outcomes) (g : Engine) (w : WsAdapter) (s : ℕ) (method : Method)
    (params : Properties)
    → Reaches w
    → w.socket ≡ some s
    → let id = decimal (suc w.request_counter) in
      let message = message_value id method params in
      let (r, asked) = request method params (ok tt) w in
      let answer = on_message outcome g (some message) in
      (r ≡ ok id)
      × (asked.sent ≡ w.sent ++ (s, message) ∷ [])
      × (handle_message (some answer) asked ≡ record w {
        request_counter = suc w.request_counter;
        sent = w.sent ++ (s, message) ∷ [];
        settled =
            w.settled
            ++ (
              id,
              settled_as method (
                  settle outcome (
                    dispatch_ws g
                      (some (Value.object params))
                      (some (Value.text (method_name method))))),
            )
              ∷ [];
      })
unfolding settle_request
request-on_message-handle_message outcome g w s method params reach e =
    let id = decimal (suc w.request_counter) in
    let req : PendingRequest = record { method = method } in
    let asked = asking method params s w in
    let result =
      settle outcome
        (dispatch_ws g (some (Value.object params)) (some (Value.text (method_name method)))) in
    let message = message_value id method params in
    let found : lookup id asked.pending ≡ some req =
      rw (lookup-insert id id req w.pending, ==_refl id) refl in
    let back = erase-insert id req w.pending (fresh w (Reaches-Accounted reach)) in
    let settled : WsAdapter = record w {
      request_counter = suc w.request_counter;
      sent = asked.sent;
      settled = w.settled ++ (id, settled_as method result) ∷ [];
    } in
    let answered : handle_message (some (on_message outcome g (some message))) asked ≡ settled =
      ap (λ m. handle_message (some m) asked) (on_message-message_value outcome g id method params)
      ∙ handle_message-ws_answer id req result asked found
      ∙ ap (λ d. record settled { pending = d }) back in
    subst
      (λ x.
        (x.0 ≡ ok id)
        × (x.1.sent ≡ asked.sent)
        × (handle_message (some (on_message outcome g (some message))) x.1 ≡ settled))
      (sym (request-asking method params s w e)) (refl, refl, answered)
