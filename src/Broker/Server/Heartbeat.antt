-- ===== src/Broker/Server/Heartbeat.antt =====
-- packages/broker/src/server.ts: the heartbeat's registration and its test of the leadership.
use osqueue.Base.{
  ℕ, ◌≡◌, refl, ap, sym, ◌∙◌, String, Bool, true, false, not, if◌then◌else◌, List, [], ◌∷◌, ◌++◌,
  Option, some, option_eq, string_eq, ==_refl,
}
use osqueue.Types.{JobId, QueueState, Mutation, MutationResult}
use osqueue.Types.Errors.{Result, ok, thrown}
use osqueue.Queue.{expire_heartbeats, apply_mutation, register_broker}
use osqueue.Storage.{StorageBackend, StorageReadResult}
use osqueue.Storage.Journal.{JournalView, IsJournaled}
use osqueue.Engine.{Codec, Pending, World, Settlement, resolved, apply_batch}
use osqueue.Engine.Commit.Atomic.{Commits}
use osqueue.Election.{leads, leadership_of, check_leadership}
use osqueue.Broker.Server.{
  ServerOptions, address, engine_options, server_election, BrokerServer, register, after_register,
  demote, on_heartbeat,
}

-- The last element of a list is the last of any way to write it.
append-one_injective {ℓ} :
    {A : Type ℓ} (xs ys : List A) (x y : A) → xs ++ x ∷ [] ≡ ys ++ y ∷ [] → x ≡ y
append-one_injective [] [] x y h = cc
append-one_injective [] (b ∷ []) x y h = absurd (cc)
append-one_injective [] (b ∷ c ∷ ys) x y h = absurd (cc)
append-one_injective (a ∷ []) [] x y h = absurd (cc)
append-one_injective (a ∷ c ∷ xs) [] x y h = absurd (cc)
append-one_injective (a ∷ xs) (b ∷ ys) x y h = append-one_injective xs ys x y (cc)

-- A batch that ends with the registration leaves this broker registered.
broker-apply_batch :
    (uuid : ℕ → JobId) (name : String) (at ticket : ℕ) (batch : List Pending) (state : QueueState)
    (now drawn : ℕ)
    → (apply_batch uuid state
        (batch ++ record { ticket = ticket; mutation = Mutation.register_broker name at } ∷ [])
        now
        drawn).state.broker
      ≡ some name
unfolding apply_batch apply_mutation register_broker
broker-apply_batch uuid name at ticket [] state now drawn = refl
broker-apply_batch uuid name at ticket (pm ∷ batch) state now drawn =
    let a = apply_mutation uuid state pm.mutation now drawn in
    broker-apply_batch uuid name at ticket batch a.state now a.drawn

module _ (uuid : ℕ → JobId) (K : Codec) (S : StorageBackend K.Bytes) (o : ServerOptions)
    (V : JournalView S) (J : IsJournaled S (engine_options o).state_key V)
    (decode-encode : (state : QueueState) → K.decode (K.encode state) ≡ ok state) where
  -- A batch that ends with this broker's registration.
  abbrev pub registering : ℕ → ℕ → List Pending → List Pending
  registering ticket at batch =
      batch ++ record { ticket = ticket; mutation = Mutation.register_broker (address o) at } ∷ []

  leads_of_named :
      (state : QueueState)
      → state.broker ≡ some (address o)
      → leads (server_election o) K S (ok state) ≡ ok true
  unfolding leads
  leads_of_named state e = rw e (ap ok (==_refl (some (address o))))

  leadership_of-named :
      (r : StorageReadResult K.Bytes) (state : QueueState)
      → K.decode r.bytes ≡ ok state
      → state.broker ≡ some (address o)
      → leadership_of (server_election o) K S (ok (some r)) ≡ ok true
  unfolding leadership_of
  leadership_of-named r state d e = ap (leads (server_election o) K S) d ∙ leads_of_named state e

  -- The first content after a commit that ends with the registration names this broker.
  check_leadership-Commits :
      (ticket at : ℕ) (batch : List Pending) (w w' : World S.State) (r : StorageReadResult K.Bytes)
      (before : List K.Bytes)
      → Commits uuid K S (engine_options o) V J decode-encode (registering ticket at batch) w w'
      → (S.read (engine_options o).state_key w'.store).0 ≡ ok (some r)
      → V.journal w'.store ≡ before ++ r.bytes ∷ []
      → (check_leadership (server_election o) K S w'.store).0 ≡ ok true
  unfolding check_leadership
  check_leadership-Commits ticket at batch w w' r before c reads latest =
      let expired = expire_heartbeats c.base c.now (engine_options o).heartbeat_timeout_ms in
      let state = (apply_batch uuid expired (registering ticket at batch) c.now c.drawn).state in
      let same : K.encode state ≡ r.bytes =
        append-one_injective (c.earlier ++ c.last ∷ []) before (K.encode state) r.bytes
          (sym c.added ∙ latest) in
      ap (leadership_of (server_election o) K S) reads
      ∙ leadership_of-named r state (ap K.decode (sym same) ∙ decode-encode state)
          (broker-apply_batch uuid (address o) at ticket batch expired c.now c.drawn)

  demote-ok_true :
      (r : Result Bool) (s : S.State) (b : BrokerServer S.State)
      → r ≡ ok true
      → (demote uuid K S o (r, s) b).running ≡ b.running
  unfolding demote
  demote-ok_true (thrown e) s b h = refl
  demote-ok_true (ok true) s b h = refl
  demote-ok_true (ok false) s b h = absurd (cc)

  after_register-running :
      (x : Option Settlement × World S.State) (res : MutationResult) (w' : World S.State)
      (b : BrokerServer S.State)
      → x ≡ (some (resolved res), w')
      → (check_leadership (server_election o) K S w'.store).0 ≡ ok true
      → (after_register uuid K S o x b).running ≡ b.running
  unfolding after_register
  after_register-running x res w' b e leads =
      ap (λ y. (after_register uuid K S o y b).running) e
      ∙ demote-ok_true (check_leadership (server_election o) K S w'.store).0
          (check_leadership (server_election o) K S w'.store).1 (record b { world = w' }) leads

  -- A heartbeat whose registration is committed never makes the broker step down, whatever broker the
  -- content that the commit replaces names: the broker has overwritten that name with its own, and
  -- goes on running. This is so if the read that follows sees the content of the commit.
  pub on_heartbeat-Commits :
      (b : BrokerServer S.State) (now ticket at : ℕ) (clock : ℕ → ℕ) (arrivals : List Mutation)
      (batch : List Pending) (res : MutationResult) (w w' : World S.State)
      (r : StorageReadResult K.Bytes) (before : List K.Bytes)
      → b.running ≡ true
      → register uuid K S o now clock arrivals b.world ≡ (some (resolved res), w')
      → Commits uuid K S (engine_options o) V J decode-encode (registering ticket at batch) w w'
      → (S.read (engine_options o).state_key w'.store).0 ≡ ok (some r)
      → V.journal w'.store ≡ before ++ r.bytes ∷ []
      → (on_heartbeat uuid K S o now clock arrivals b).running ≡ true
  unfolding on_heartbeat
  on_heartbeat-Commits b now ticket at clock arrivals batch res w w' r before up e c reads latest =
      let leads = check_leadership-Commits ticket at batch w w' r before c reads latest in
      let kept =
        after_register-running (register uuid K S o now clock arrivals b.world) res w' b e leads in
      by_running b.running up (kept ∙ up)
    where
      by_running :
          (run : Bool)
          → run ≡ true
          → (after_register uuid K S o (register uuid K S o now clock arrivals b.world) b).running
            ≡ true
          → (if not run
              then b
              else after_register uuid K S o
                  (register uuid K S o now clock arrivals b.world)
                  b).running
            ≡ true
      by_running true h k = k
      by_running false h k = absurd (cc)
