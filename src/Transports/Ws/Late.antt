-- ===== src/Transports/Ws/Late.antt =====
-- packages/client/src/transports/ws.ts: the "close" event of the socket that `reconnect` closed, when it
-- comes after the new socket is open.
use osqueue.Base.{
  ℕ, suc, ◌≡◌, refl, ◌∙◌, String, [], ◌∷◌, Option, none, some, arith, ==_refl, false, string_eq,
}
use osqueue.Base.Decimal.{decimal}
use osqueue.Base.Dict.{Dict, lookup, insert, lookup-insert, lookup-append}
use osqueue.Types.{Value, Properties}
use osqueue.Types.Errors.{Thrown, ok}
use osqueue.Broker.Dispatch.{member, text_or_empty}
use osqueue.Transports.Ws.{
  Method, PendingRequest, rejected, WsAdapter, ensure_socket, socket_created, opening_settled,
  reset_socket, reject_each, reject_pending, on_close, handle_message, request, request_on, sending,
  disconnect, connection_error,
}
use osqueue.Transports.Ws.Once.{Reaches, Reaches-Accounted, fresh_settled}

-- `reconnect` up to the opening of the new socket.
abbrev pub reconnected : ℕ → ℕ → WsAdapter → WsAdapter
reconnected promise s w =
    opening_settled (socket_created s (ensure_socket false promise (disconnect w)).1)

lookup-reject_each :
    (reason : Thrown) (id : String) (req : PendingRequest) (d : Dict PendingRequest)
    → lookup id d ≡ some req
    → lookup id (reject_each reason d) ≡ some (rejected reason)
unfolding lookup reject_each
lookup-reject_each reason id req [] h = absurd (cc)
lookup-reject_each reason id req ((j, r) ∷ d) h = ground (arith, lookup-reject_each reason id req d)

handle_message-none_pending :
    (answer : Option Value) (w : WsAdapter)
    → ((id : String) → lookup id w.pending ≡ none)
    → handle_message answer w ≡ w
unfolding handle_message
handle_message-none_pending none w h = refl
handle_message-none_pending (some m) w h =
    rw (h (text_or_empty (member "id" m)), handle_message) refl

-- After `reconnect` has opened a new socket and a request was sent on it, the "close" event of the old
-- socket settles this request with "WebSocket closed" and makes the adapter forget the new socket;
-- the answer that comes on it then changes nothing. This is so after any calls and events before.
pub request-on_close :
    (promise s : ℕ) (method : Method) (params : Properties) (w : WsAdapter)
    → Reaches w
    → let id = decimal (suc w.request_counter) in
      let (r, asked) = request method params (ok tt) (reconnected promise s w) in
      (r ≡ ok id)
      × (asked.socket ≡ some s)
      × ((on_close asked).socket ≡ none)
      × (lookup id (on_close asked).settled ≡ some (rejected (connection_error "WebSocket closed")))
      × ((answer : Option Value) → handle_message answer (on_close asked) ≡ on_close asked)
unfolding request request_on sending socket_created opening_settled disconnect reset_socket
    ensure_socket on_close reject_pending lookup
request-on_close promise s method params w reach =
    let id = decimal (suc w.request_counter) in
    let req : PendingRequest = record { method = method } in
    let reason = connection_error "WebSocket closed" in
    let pending = insert id req w.pending in
    let found : lookup id pending ≡ some req =
      lookup-insert id id req w.pending ∙ rw (==_refl id) refl in
    let new = fresh_settled w (Reaches-Accounted reach) in
    let settled =
      lookup-append id w.settled (reject_each reason pending) new
      ∙ lookup-reject_each reason id req pending found in
    (refl, refl, refl, settled, λ answer. handle_message-none_pending answer _ (λ j. refl))
