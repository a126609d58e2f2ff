-- ===== src/Client/Configured.antt =====
-- packages/client/src/client.ts: clients that are given a transport and nothing else.
use osqueue.Base.{ℕ, ◌≡◌, refl, String, Bool, true, false, Option, none, some}
use osqueue.Types.Errors.{ok, thrown}
use osqueue.Storage.{StorageBackend}
use osqueue.Engine.{Codec}
use osqueue.Client.{
  Acts, Adapters, TransportOption, given_adapter, new_client, connect, connect_from,
  discovery_error,
}
use osqueue.Client.Operations.{with_adapter, acting, after_connect}

-- The option is not an adapter.
abbrev pub is_configuration : {A : Type 0} → TransportOption A → Bool
is_configuration (given_adapter a) = false
is_configuration _ = true

module _ {A : Type 0} (I : Adapters A) (K : Codec) (S : StorageBackend K.Bytes) where
  open S use {State}

  -- A client that is made with a transport of Connect or a configuration of a transport, even one that
  -- names the broker's URL, but with neither a broker URL nor a storage, is constructed, and each of
  -- its operations throws that no transport was provided.
  pub new_client-with_adapter :
      {X : Type 0} (t : TransportOption A) (retry_ms : Option ℕ) (version : Option String)
      (operation : A → Acts A X) (s : State)
      → is_configuration t ≡ true
      → let (r, c) = new_client I record {
        broker_url = none;
        storage = false;
        transport = some t;
        discovery_retry_ms = retry_ms;
        http_version = version;
      } in
        (r ≡ ok tt)
        × (with_adapter I K S operation c s ≡ (
          thrown
              (discovery_error "No brokerUrl, transport, or storage provided for broker discovery"),
          c,
          s,
        ))
  unfolding new_client with_adapter acting after_connect connect connect_from
  new_client-with_adapter (TransportOption.given_adapter a) n v op s h = absurd (cc)
  new_client-with_adapter (TransportOption.given_transport x) n v op s h = (refl, refl)
  new_client-with_adapter (TransportOption.given_rest x) n v op s h = (refl, refl)
  new_client-with_adapter (TransportOption.given_ws x) n v op s h = (refl, refl)
  new_client-with_adapter (TransportOption.given_connect x) n v op s h = (refl, refl)
  new_client-with_adapter TransportOption.given_other n v op s h = (refl, refl)
