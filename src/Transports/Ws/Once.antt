-- ===== src/Transports/Ws/Once.antt =====
-- packages/client/src/transports/ws.ts: how often a request is settled, over all orders of calls, messages,
-- timers and "close" events.
use osqueue.Base.{
  ℕ, zero, suc, ◌+◌, ◌≤◌, ◌<◌, ◌≡◌, refl, String, Bool, [], ◌∷◌, Option, none, some, if◌then◌else◌,
  ◌==◌, string_eq, ==→≡, inl, inr, Option-cases, Bool-cases, arith,
}
use osqueue.Base.Decimal.{decimal, decimal-injective}
use osqueue.Base.Dict.{
  Dict, lookup, insert, count, count-erase, count-insert, count-append, count_of_lookup,
}
use osqueue.Types.{Value, Properties}
use osqueue.Types.Errors.{Thrown, Result, ok, thrown}
use osqueue.Broker.Dispatch.{member, text_or_empty}
use osqueue.Transports.Ws.{
  WsTransportConfig, Method, PendingRequest, Settlement, WsAdapter, create_ws_adapter,
  ensure_socket, socket_created, opening_settled, reset_socket, reject_each, reject_pending,
  on_close, settle_request, handle_message, on_timeout, request, request_on, sending, disconnect,
  connection_error, new_adapter, message_value,
}

-- One call or event: `ensureSocket`, a new socket, the end of an opening, a request whose socket is
-- there or not and whose `send` may throw, a message, a timer, a "close" event, and `reconnect` or
-- `close`.
pub data Step (w : WsAdapter) : WsAdapter → Type 0 where
  ensures : (is_open : Bool) (promise : ℕ) → Step w (ensure_socket is_open promise w).1
  creates : (s : ℕ) → Step w (socket_created s w)
  opens : Step w (opening_settled w)
  requests :
      (method : Method) (params : Properties) (sends : Result {0} Unit)
      → Step w (request method params sends w).1
  receives : (message : Option Value) → Step w (handle_message message w)
  times_out : (id : String) → Step w (on_timeout id w)
  closes : Step w (on_close w)
  disconnects : Step w (disconnect w)

pub data Reaches : WsAdapter → Type 0 where
  created :
      (config : WsTransportConfig) (w : WsAdapter) → create_ws_adapter config ≡ ok w → Reaches w
  stepped : {w w' : WsAdapter} → Reaches w → Step w w' → Reaches w'

-- 1 for an identifier that a counter has given out, 0 for any other text.
abbrev pub issued : ℕ → String → ℕ
issued zero id = 0
issued (suc n) id = (if id == decimal (suc n) then 1 else 0) + issued n id

-- Each identifier that was given out is in the map, or `resolve` or `reject` was called for it, and
-- only one of these and only once; for other texts neither is.
abbrev pub Accounted : WsAdapter → Type 0
Accounted w = (id : String) → count id w.pending + count id w.settled ≡ issued w.request_counter id

issued_later : (n m : ℕ) → n < m → issued n (decimal m) ≡ 0
issued_later zero m h = refl
issued_later (suc n) m h =
    let rest = issued_later n m (omega (arith, h)) in
    elim (Bool-cases (decimal m == decimal (suc n))) [
      | inl e ↦
          let same = decimal-injective m (suc n) (==→≡ (decimal m) (decimal (suc n)) e) in
          absurd (omega (arith, h, same))
      | inr e ↦ rw e (omega (arith, rest))
    ]

issued_once : (n : ℕ) (id : String) → issued n id ≤ 1
issued_once zero id = omega arith
issued_once (suc n) id = elim (Bool-cases (id == decimal (suc n))) [
  | inl e ↦
      let later = issued_later n (suc n) (omega arith) in
      let same = ==→≡ id (decimal (suc n)) e in rw e (rw same (rw later (omega arith)))
  | inr e ↦ rw e (omega (arith, issued_once n id))
]

-- The next identifier is not in the map.
pub fresh : (w : WsAdapter) → Accounted w → count (decimal (suc w.request_counter)) w.pending ≡ 0
fresh w a =
    let id = decimal (suc w.request_counter) in
    omega (arith, a id, issued_later w.request_counter (suc w.request_counter) (omega arith))

-- Nor was it settled.
pub fresh_settled :
    (w : WsAdapter) → Accounted w → count (decimal (suc w.request_counter)) w.settled ≡ 0
fresh_settled w a =
    let id = decimal (suc w.request_counter) in
    omega (arith, a id, issued_later w.request_counter (suc w.request_counter) (omega arith))

settle_request-Accounted :
    (id : String) (s : Settlement) (req : PendingRequest) (w : WsAdapter)
    → lookup id w.pending ≡ some req
    → Accounted w
    → Accounted (settle_request id s w)
unfolding settle_request
settle_request-Accounted id s req w h a j =
    let there = count_of_lookup id req w.pending h in
    let once = issued_once w.request_counter id in
    let appended = count-append j w.settled ((id, s) ∷ []) in
    let erased = count-erase j id w.pending in
    ground (arith, a j, a id, there, once, appended, erased)

count-reject_each :
    (reason : Thrown) (d : Dict PendingRequest) (id : String)
    → count id (reject_each reason d) ≡ count id d
unfolding reject_each
count-reject_each reason [] id = refl
count-reject_each reason ((j, req) ∷ d) id = omega (arith, count-reject_each reason d id)

on_close-Accounted : (w : WsAdapter) → Accounted w → Accounted (on_close w)
unfolding on_close reset_socket reject_pending
on_close-Accounted w a id =
    let reason = connection_error "WebSocket closed" in
    let appended = count-append id w.settled (reject_each reason w.pending) in
    omega (arith, a id, appended, count-reject_each reason w.pending id)

handle_message-Accounted :
    (message : Option Value) (w : WsAdapter) → Accounted w → Accounted (handle_message message w)
unfolding handle_message
handle_message-Accounted none w a = a
handle_message-Accounted (some m) w a =
    elim (Option-cases (lookup (text_or_empty (member "id" m)) w.pending)) [
      | inl e ↦ rw (e, handle_message) a
      | inr (req, e) ↦
          rw (e, handle_message)
            (settle_request-Accounted (text_or_empty (member "id" m)) _ req w e a)
    ]

on_timeout-Accounted : (id : String) (w : WsAdapter) → Accounted w → Accounted (on_timeout id w)
unfolding on_timeout
on_timeout-Accounted id w a = elim (Option-cases (lookup id w.pending)) [
  | inl e ↦ rw (e, on_timeout) a
  | inr (req, e) ↦ rw (e, on_timeout) (settle_request-Accounted id _ req w e a)
]

sending-Accounted :
    (id : String) (s : ℕ) (message : Value) (sends : Result {0} Unit) (w : WsAdapter)
    → Accounted w
    → Accounted (sending id s message sends w)
unfolding sending
sending-Accounted id s message (ok done) w a = a
sending-Accounted id s message (thrown e) w a = a

request_on-Accounted :
    (socket : Option ℕ) (method : Method) (params : Properties) (sends : Result {0} Unit)
    (w : WsAdapter)
    → Accounted w
    → Accounted (request_on socket method params sends w).1
unfolding request_on
request_on-Accounted none method params sends w a = a
request_on-Accounted (some s) method params sends w a =
    let new = decimal (suc w.request_counter) in
    let req : PendingRequest = record { method = method } in
    let w' : WsAdapter = record w {
      request_counter = suc w.request_counter;
      pending = insert new req w.pending;
    } in
    let inserted : Accounted w' =
      λ id. omega (arith, count-insert id new req w.pending (fresh w a), a id) in
    sending-Accounted new s (message_value new method params) sends w' inserted

step-Accounted : {w w' : WsAdapter} → Step w w' → Accounted w → Accounted w'
unfolding request ensure_socket socket_created opening_settled disconnect reset_socket
step-Accounted {w} (Step.ensures is_open promise) a = ground arith
step-Accounted (Step.creates s) a = a
step-Accounted Step.opens a = a
step-Accounted {w} (Step.requests method params sends) a =
    request_on-Accounted w.socket method params sends w a
step-Accounted {w} (Step.receives message) a = handle_message-Accounted message w a
step-Accounted {w} (Step.times_out id) a = on_timeout-Accounted id w a
step-Accounted {w} Step.closes a = on_close-Accounted w a
step-Accounted Step.disconnects a = a

created-Accounted :
    (config : WsTransportConfig) (w : WsAdapter) → create_ws_adapter config ≡ ok w → Accounted w
unfolding create_ws_adapter
created-Accounted config w e =
    let new : w ≡ new_adapter config = ground arith in rw new (λ id. omega arith)

-- Of every adapter that was created, after any calls and events in any order: each identifier that it
-- has given to a request is either still pending, or `resolve` or `reject` was called for it exactly
-- once, and no other text is pending or was settled.
pub Reaches-Accounted : {w : WsAdapter} → Reaches w → Accounted w
Reaches-Accounted (Reaches.created config w e) = created-Accounted config w e
Reaches-Accounted (Reaches.stepped before step) = step-Accounted step (Reaches-Accounted before)
