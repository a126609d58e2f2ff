-- ===== src/Client/Discovery.antt =====
-- packages/client/src/client.ts: what discovery establishes, and what it leaves to `reconnect`.
use osqueue.Base.{
  ◌≡◌, ◌≢◌, refl, ap, sym, ◌∙◌, subst, String, ◌<>◌, Bool, true, false, List, [], ◌∷◌, Option, none,
  some, if◌then◌else◌, ◌==◌, string_eq, ==→≡, Bool-cases, inl, inr, length, arith,
}
use text.Mathlib.TextLemmas.{cons-append}
use osqueue.Types.{QueueState}
use osqueue.Types.Errors.{Thrown, Result, ok, thrown}
use osqueue.Storage.{StorageBackend, StorageReadResult}
use osqueue.Engine.{Codec}
use osqueue.Client.{
  Acts, Adapters, OsqueueClient, create_adapter, adapter_set, set_adapter, Calls, found_broker,
  found_state, discover, connect_from, connect, discovery_error,
}
use osqueue.Client.Operations.{
  retry, connect_again, renew_at, closed, reconnected, reconnect_from, reconnect,
}

http_ne_empty : (t : String) → "http://" <> t ≢ ""
http_ne_empty t h = absurd (cc (h, cons-append "h" "ttp://" t))

module _ {A : Type 0} (I : Adapters A) (K : Codec) (S : StorageBackend K.Bytes) where
  open S use {State}

  -- What a call that returned leaves in the client.
  abbrev Leaves : (OsqueueClient A → Type 0) → Acts (OsqueueClient A) Unit → Type 0
  Leaves P (thrown e, c) = Unit
  Leaves P (ok done, c) = P c

  abbrev HasAdapter : OsqueueClient A → Type 0
  HasAdapter c = (a : A) × (c.adapter ≡ some a)

  abbrev IsLocated : OsqueueClient A → Type 0
  IsLocated c = (url : String) × (c.broker_url ≡ some url) × (url ≢ "")

  abbrev IsConnected : OsqueueClient A → Type 0
  IsConnected c = HasAdapter c × IsLocated c

  set_adapter-IsConnected :
      (url : String) (c : OsqueueClient A)
      → c.broker_url ≡ some url
      → url ≢ ""
      → Leaves IsConnected (set_adapter I url c)
  unfolding set_adapter
  set_adapter-IsConnected url c e h = by_result (create_adapter I url c)
    where
      by_result : (r : Result A) → Leaves IsConnected (adapter_set I r c)
      by_result (ok a) = ((a, refl), (url, e, h))
      by_result (thrown e) = tt

  found_broker-IsConnected :
      (broker : Option String) (c : OsqueueClient A)
      → Leaves IsConnected (found_broker I K S broker c)
  unfolding found_broker
  found_broker-IsConnected none c = tt
  found_broker-IsConnected (some b) c = elim (Bool-cases (b == "")) [
    | inl e ↦ rw (e, found_broker) tt
    | inr e ↦
        rw (e, found_broker)
          (set_adapter-IsConnected ("http://" <> b)
            (record c { broker_url = some ("http://" <> b) }) refl (http_ne_empty b))
  ]

  found_state-IsConnected :
      (r : Result (Option (StorageReadResult K.Bytes))) (c : OsqueueClient A)
      → Leaves IsConnected (found_state I K S r c)
  unfolding found_state
  found_state-IsConnected (thrown e) c = tt
  found_state-IsConnected (ok none) c = tt
  found_state-IsConnected (ok (some r)) c = by_state (K.decode r.bytes)
    where
      by_state :
          (d : Result QueueState)
          → Leaves IsConnected
              (elim d [ thrown e ↦ (thrown e, c) | ok state ↦ found_broker I K S state.broker c ])
      by_state (thrown e) = tt
      by_state (ok state) = found_broker-IsConnected state.broker c

  -- The client part of what a call comes to.
  abbrev without_store : Calls I K S Unit → Acts (OsqueueClient A) Unit
  without_store (r, c, s) = (r, c)

  no_storage : Thrown
  no_storage = discovery_error "No brokerUrl, transport, or storage provided for broker discovery"

  by_storage :
      (b : Bool) (c : OsqueueClient A) (s : State)
      → Leaves IsConnected
          (without_store (if b then discover I K S c s else (thrown no_storage, c, s)))
  unfolding discover
  by_storage true c s = found_state-IsConnected _ c
  by_storage false c s = tt

  connect_from-IsConnected :
      (c : OsqueueClient A) (s : State)
      → Leaves IsConnected (without_store (connect_from I K S none c s))
  unfolding connect_from no_storage
  connect_from-IsConnected c s = by_storage c.storage c s

  connect_from-HasAdapter :
      (a : Option A) (c : OsqueueClient A) (s : State)
      → c.adapter ≡ a
      → Leaves HasAdapter (without_store (connect_from I K S a c s))
  unfolding connect_from
  connect_from-HasAdapter none c s e =
      weaken (without_store (connect_from I K S none c s)) (connect_from-IsConnected c s)
    where
      weaken : (x : Acts (OsqueueClient A) Unit) → Leaves IsConnected x → Leaves HasAdapter x
      weaken (thrown e, c) h = tt
      weaken (ok done, c) h = h.0
  connect_from-HasAdapter (some a) c s e = (a, e)

  retry_of_HasAdapter :
      (x : Calls I K S Unit) → Leaves HasAdapter (without_store x) → retry I K S x ≡ x
  unfolding retry connect_again
  retry_of_HasAdapter (thrown e, c, s) h = refl
  retry_of_HasAdapter (ok done, c, s) (a, e) = ap (λ o. connect_again I K S o c s) e

  -- The second attempt of `reconnect`, which waits and connects again if there is still no adapter, is
  -- never made: `connect` has thrown or has left an adapter, whatever the storage answers.
  pub retry-connect :
      (c : OsqueueClient A) (s : State) → retry I K S (connect I K S c s) ≡ connect I K S c s
  unfolding connect
  retry-connect c s =
      retry_of_HasAdapter (connect_from I K S c.adapter c s)
        (connect_from-HasAdapter c.adapter c s refl)

  -- Reconnecting at a known URL does not depend on the store, and keeps the URL.
  abbrev KeepsUrl : String → OsqueueClient A → (State → Calls I K S Unit) → Type 0
  KeepsUrl url c call =
      (s t : State)
      → let (r, d, u) = call s in (u ≡ s) × (d.broker_url ≡ some url) × (call t ≡ (r, d, t))

  set_adapter-KeepsUrl :
      (url at : String) (c : OsqueueClient A)
      → c.broker_url ≡ some url
      → KeepsUrl url c (λ s. let (r, d) = set_adapter I at c in (r, d, s))
  unfolding set_adapter
  set_adapter-KeepsUrl url at c e = by_result (create_adapter I at c)
    where
      by_result :
          (r : Result A) → KeepsUrl url c (λ s. let (r', d) = adapter_set I r c in (r', d, s))
      by_result (ok a) s t = (refl, e, refl)
      by_result (thrown x) s t = (refl, e, refl)

  renew_at-KeepsUrl :
      (url : String) (o : Option String) (c : OsqueueClient A)
      → url ≢ ""
      → o ≡ some url
      → c.broker_url ≡ some url
      → KeepsUrl url c (renew_at I K S o c)
  unfolding renew_at
  renew_at-KeepsUrl url none c h p e = absurd (cc)
  renew_at-KeepsUrl url (some at) c h p e =
      let differ : (at == "") ≡ false = elim (Bool-cases (at == "")) [
        | inl same ↦ let empty = ==→≡ at "" same in let known : url ≡ "" = cc in absurd (h known)
        | inr other ↦ other
      ] in
      rw (differ, renew_at) (set_adapter-KeepsUrl url at c e)

  closed-KeepsUrl :
      (url : String) (x : Acts A Unit) (c : OsqueueClient A)
      → url ≢ ""
      → c.broker_url ≡ some url
      → KeepsUrl url c (closed I K S x c)
  unfolding closed
  closed-KeepsUrl url (thrown x, a) c h e = λ s t. (refl, e, refl)
  closed-KeepsUrl url (ok done, a) c h e =
      renew_at-KeepsUrl url c.broker_url (record c { adapter = none }) h e e

  reconnected-KeepsUrl :
      (url : String) (x : Option (Acts A Unit)) (a : A) (c : OsqueueClient A)
      → url ≢ ""
      → c.broker_url ≡ some url
      → KeepsUrl url c (reconnected I K S x a c)
  unfolding reconnected
  reconnected-KeepsUrl url (some (r, a')) a c h e = λ s t. (refl, e, refl)
  reconnected-KeepsUrl url none a c h e = closed-KeepsUrl url (I.close a) c h e

  reconnect_from-KeepsUrl :
      (url : String) (o : Option A) (c : OsqueueClient A)
      → url ≢ ""
      → c.broker_url ≡ some url
      → KeepsUrl url c (reconnect_from I K S o c)
  unfolding reconnect_from
  reconnect_from-KeepsUrl url (some a) c h e = reconnected-KeepsUrl url (I.reconnect a) a c h e
  reconnect_from-KeepsUrl url none c h e = renew_at-KeepsUrl url c.broker_url c h e e

  reconnect-KeepsUrl :
      (url : String) (c : OsqueueClient A)
      → url ≢ ""
      → c.broker_url ≡ some url
      → KeepsUrl url c (reconnect I K S c)
  unfolding reconnect
  reconnect-KeepsUrl url c h e = reconnect_from-KeepsUrl url c.adapter c h e

  -- The client after a `reconnect` on each of the stores.
  abbrev pub reconnects : List State → OsqueueClient A → OsqueueClient A
  reconnects [] c = c
  reconnects (s ∷ ss) c = reconnects ss (reconnect I K S c s).1

  reconnects-KeepsUrl :
      (url : String) (ss ts : List State) (c : OsqueueClient A)
      → url ≢ ""
      → c.broker_url ≡ some url
      → length ss ≡ length ts
      → ((reconnects ss c).broker_url ≡ some url) × (reconnects ss c ≡ reconnects ts c)
  reconnects-KeepsUrl url [] [] c h e n = (e, refl)
  reconnects-KeepsUrl url [] (t ∷ ts) c h e n = absurd (omega (arith, n))
  reconnects-KeepsUrl url (s ∷ ss) [] c h e n = absurd (omega (arith, n))
  reconnects-KeepsUrl url (s ∷ ss) (t ∷ ts) c h e n =
      let (unread, kept, same) = reconnect-KeepsUrl url c h e s t in
      let d = (reconnect I K S c s).1 in
      let (later, equal) = reconnects-KeepsUrl url ss ts d h kept (omega (arith, n)) in
      (later, equal ∙ ap (λ x. reconnects ts x.1) (sym same))

  connect-IsConnected :
      (c d : OsqueueClient A) (s u : State)
      → c.adapter ≡ none
      → connect I K S c s ≡ (ok tt, d, u)
      → IsConnected d
  unfolding connect
  connect-IsConnected c d s u none_yet e =
      subst (λ x. Leaves IsConnected (without_store x))
        (ap (λ o. connect_from I K S o c s) (sym none_yet) ∙ e) (connect_from-IsConnected c s)

  -- Once a client has found a broker through the storage, no `reconnect` looks for another: after any
  -- number of them the URL is the one found first, and the client is the same whatever the storage
  -- holds by then, even if it names another broker.
  pub connect-reconnects :
      (c d : OsqueueClient A) (s u : State)
      → c.adapter ≡ none
      → connect I K S c s ≡ (ok tt, d, u)
      → (ss ts : List State) → length ss ≡ length ts
      → ((reconnects ss d).broker_url ≡ d.broker_url) × (reconnects ss d ≡ reconnects ts d)
  connect-reconnects c d s u none_yet e ss ts n =
      let (has, (url, at, set)) = connect-IsConnected c d s u none_yet e in
      let (kept, same) = reconnects-KeepsUrl url ss ts d set at n in (kept ∙ sym at, same)
