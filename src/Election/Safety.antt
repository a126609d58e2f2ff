-- ===== src/Election/Safety.antt =====
-- What each result of an election says about the journal of the queue's state.
use osqueue.Base.{
  true, false, ℕ, ◌-◌, ◌≤◌, ◌<◌, ◌≡◌, ◌≢◌, refl, subst, ◌⊎◌, inl, inr, String, true, false, not,
  ◌&&◌, List, [], ◌∷◌, ◌++◌, Option, none, some, arith, get_elem?, Extends, Extends-trans,
  Extends-nil, Bool-cases, ◌==◌, string_eq, option_eq,
}
use osqueue.Types.{StorageVersion, QueueState}
use osqueue.Types.Errors.{Result, ok, thrown, is_cas_conflict}
use osqueue.Queue.{empty_state, register_broker}
use osqueue.Storage.{StorageBackend, StorageReadResult}
use osqueue.Storage.Journal.{JournalView, IsJournaled}
use osqueue.Engine.{Codec}
use osqueue.Election.{
  BrokerElection, ElectionResult, elected, already_leader, other_leader, conflict, outcome,
  is_fresh, found_queue, take_over, contend, challenge, with_state, after_read, try_elect,
}

module _ (E : BrokerElection) (K : Codec) (S : StorageBackend K.Bytes) (V : JournalView S)
    (J : IsJournaled S E.state_key V) where
  -- A content of the journal decodes to the state.
  pub record Held (state : QueueState) (journal : List K.Bytes) : Type 0 where
    pub place : ℕ
    pub bytes : K.Bytes
    pub stored : get_elem? journal place ≡ some bytes
    pub decoded : K.decode bytes ≡ ok state

  abbrev pub Fresh : QueueState → ℕ → Type 0
  Fresh state now = now - state.broker_heartbeat ≤ E.heartbeat_timeout_ms

  -- The broker wrote its name, at this time, onto a last content that named no broker or one
  -- whose heartbeat had run out.
  pub record TakesOver (now : ℕ) (old new : List K.Bytes) : Type 0 where
    pub earlier : List K.Bytes
    pub last : K.Bytes
    pub base : QueueState
    pub since : Extends old (earlier ++ last ∷ [])
    pub decoded : K.decode last ≡ ok base
    pub vacant : (base.broker ≡ none) ⊎ (E.heartbeat_timeout_ms < now - base.broker_heartbeat)
    pub added :
        new ≡ (earlier ++ last ∷ []) ++ K.encode (register_broker base E.broker_address now) ∷ []

  -- The broker created the state.
  abbrev pub Founds : ℕ → List K.Bytes → List K.Bytes → Type 0
  Founds now old new =
      (old ≡ []) × (new ≡ K.encode (register_broker empty_state E.broker_address now) ∷ [])

  -- What the result means; an error or a conflict says nothing.
  abbrev pub Means : ℕ → List K.Bytes → List K.Bytes → Result ElectionResult → Type 0
  Means now old new (ok elected) = Founds now old new ⊎ TakesOver now old new
  Means now old new (ok already_leader) =
      (state : QueueState) × Held state new
      × (state.broker ≡ some E.broker_address)
      × Fresh state now
  Means now old new (ok (other_leader leader)) =
      (state : QueueState) × Held state new
      × (state.broker ≡ some leader)
      × (leader ≢ E.broker_address)
      × Fresh state now
  Means now old new (ok conflict) = Unit {0}
  Means now old new (thrown e) = Unit {0}

  outcome-Means :
      (now : ℕ) (old new : List K.Bytes) (r : Result StorageVersion)
      → ((v : StorageVersion) → r ≡ ok v → Founds now old new ⊎ TakesOver now old new)
      → Means now old new (outcome r)
  unfolding outcome
  outcome-Means now old new (ok v) h = h v refl
  outcome-Means now old new (thrown e) h = elim (Bool-cases (is_cas_conflict e)) [
    | inl c ↦ rw (c, outcome) tt
    | inr c ↦ rw (c, outcome) tt
  ]

  found_queue-Means :
      (now : ℕ) (s : S.State)
      → V.IsValid s
      → let (r, s') = found_queue E K S now s in Means now (V.journal s) (V.journal s') r
  unfolding found_queue
  found_queue-Means now s h =
      outcome-Means now _ _ (S.create_if_not_exists E.state_key _ s).0
        λ v e. let (empty, added, _) = J.create-ok s _ v h e in inl (empty, added)

  -- The state that was read, with its version.
  abbrev pub ReadAs : QueueState → StorageVersion → List K.Bytes → Type 0
  ReadAs state version journal =
      (bytes : K.Bytes) × V.Names journal version bytes × (K.decode bytes ≡ ok state)

  pub read_as-Held :
      (state : QueueState) (version : StorageVersion) (journal : List K.Bytes)
      → ReadAs state version journal
      → Held state journal
  read_as-Held state version journal (bytes, named, d) =
      let (k, at) = J.Names-held journal version bytes named in
      record { place = k; bytes = bytes; stored = at; decoded = d }

  take_over-Means :
      (state : QueueState) (version : StorageVersion) (now : ℕ) (s : S.State)
      → V.IsValid s
      → ReadAs state version (V.journal s)
      → (state.broker ≡ none) ⊎ (E.heartbeat_timeout_ms < now - state.broker_heartbeat)
      → let (r, s') = take_over E K S state version now s in
        Means now (V.journal s) (V.journal s') r
  unfolding take_over
  take_over-Means state version now s h (bytes, named, d) vacant =
      outcome-Means now _ _ (S.write E.state_key _ version s).0 λ v e.
        let onto = J.write-ok s _ version v h e in
        let same =
          J.Names-unique _ version bytes onto.base
            (J.Names-Extends _ _ version bytes onto.since named) onto.named in
        inr (record {
          earlier = onto.earlier;
          last = onto.base;
          base = state;
          since = onto.since;
          decoded = subst (λ b. K.decode b ≡ ok state) same d;
          vacant = vacant;
          added = onto.added;
        })

  is_stale :
      (state : QueueState) (broker : String) (now : ℕ)
      → state.broker ≡ some broker
      → (state.broker == some E.broker_address && is_fresh E state now) ≡ false
      → (not (broker == E.broker_address) && is_fresh E state now) ≡ false
      → E.heartbeat_timeout_ms < now - state.broker_heartbeat
  is_stale state broker now e own other = ground arith

  is_alive :
      (broker : String) (state : QueueState) (now : ℕ)
      → (not (broker == E.broker_address) && is_fresh E state now) ≡ true
      → (broker ≢ E.broker_address) × Fresh state now
  is_alive broker state now h = ground arith

  is_own :
      (state : QueueState) (now : ℕ)
      → (state.broker == some E.broker_address && is_fresh E state now) ≡ true
      → (state.broker ≡ some E.broker_address) × Fresh state now
  is_own state now h = ground arith

  contend-Means :
      (state : QueueState) (broker : Option String) (version : StorageVersion) (now : ℕ)
      (s : S.State)
      → V.IsValid s
      → ReadAs state version (V.journal s)
      → state.broker ≡ broker
      → (state.broker == some E.broker_address && is_fresh E state now) ≡ false
      → let (r, s') = contend E K S state broker version now s in
        Means now (V.journal s) (V.journal s') r
  unfolding contend
  contend-Means state none version now s h read e own =
      take_over-Means state version now s h read (inl e)
  contend-Means state (some broker) version now s h (bytes, named, d) e own =
      elim (Bool-cases (not (broker == E.broker_address) && is_fresh E state now)) [
        | inl alive ↦
            let (ne, fresh) = is_alive broker state now alive in
            let held = read_as-Held state version (V.journal s) (bytes, named, d) in
            rw (alive, contend) (state, held, e, ne, fresh)
        | inr dead ↦
            rw (dead, contend)
              (take_over-Means state version now s h (bytes, named, d)
                (inr (is_stale state broker now e own dead)))
      ]

  challenge-Means :
      (state : QueueState) (version : StorageVersion) (now : ℕ) (s : S.State)
      → V.IsValid s
      → ReadAs state version (V.journal s)
      → let (r, s') = challenge E K S state version now s in
        Means now (V.journal s) (V.journal s') r
  unfolding challenge
  challenge-Means state version now s h (bytes, named, d) =
      elim (Bool-cases (state.broker == some E.broker_address && is_fresh E state now)) [
        | inl own ↦
            let (e, fresh) = is_own state now own in
            let held = read_as-Held state version (V.journal s) (bytes, named, d) in
            rw (own, challenge) (state, held, e, fresh)
        | inr other ↦
            rw (other, challenge)
              (contend-Means state state.broker version now s h (bytes, named, d) refl other)
      ]

  -- What holds of the journal after the read holds of it from before.
  Means-from :
      (now : ℕ) (old mid new : List K.Bytes) (r : Result ElectionResult)
      → Extends old mid
      → Means now mid new r
      → Means now old new r
  Means-from now old mid new (ok elected) x (inl (e, added)) = inl (Extends-nil old mid x e, added)
  Means-from now old mid new (ok elected) x (inr t) = inr (record {
    earlier = t.earlier;
    last = t.last;
    base = t.base;
    since = Extends-trans _ _ _ x t.since;
    decoded = t.decoded;
    vacant = t.vacant;
    added = t.added;
  })
  Means-from now old mid new (ok already_leader) x m = m
  Means-from now old mid new (ok (other_leader leader)) x m = m
  Means-from now old mid new (ok conflict) x m = tt
  Means-from now old mid new (thrown e) x m = tt

  with_state-Means :
      (d : Result QueueState) (version : StorageVersion) (now : ℕ) (s : S.State)
      → V.IsValid s
      → ((state : QueueState) → d ≡ ok state → ReadAs state version (V.journal s))
      → let (r, s') = with_state E K S d version now s in Means now (V.journal s) (V.journal s') r
  unfolding with_state
  with_state-Means (thrown e) version now s h read = tt
  with_state-Means (ok state) version now s h read =
      challenge-Means state version now s h (read state refl)

  after_read-Means :
      (now : ℕ) (s : S.State) (r : Result (Option (StorageReadResult K.Bytes)))
      → V.IsValid s
      → (S.read E.state_key s).0 ≡ r
      → let (r', s') = after_read E K S now (r, (S.read E.state_key s).1) in
        Means now (V.journal (S.read E.state_key s).1) (V.journal s') r'
  unfolding after_read
  after_read-Means now s (thrown e) h q = tt
  after_read-Means now s (ok none) h q = found_queue-Means now _ (J.read-IsValid s h)
  after_read-Means now s (ok (some r)) h q =
      let named = J.read-some s r h q in
      with_state-Means (K.decode r.bytes) r.version now _ (J.read-IsValid s h)
        λ state d. (r.bytes, named, d)

  -- On a backend that keeps the contract of a journal, the results of an election are true of the
  -- store, whatever other clients do meanwhile. Elected: the broker created the state, or wrote
  -- its name onto the last content of the journal, which named no broker or one whose heartbeat
  -- was older than the timeout. Already the leader, or another is: a content of the journal says
  -- so, with a heartbeat within the timeout.
  pub try_elect-Means :
      (now : ℕ) (s : S.State)
      → V.IsValid s
      → let (r, s') = try_elect E K S now s in Means now (V.journal s) (V.journal s') r
  unfolding try_elect
  try_elect-Means now s h =
      Means-from now _ _ _ (try_elect E K S now s).0 (J.read_extends s h)
        (after_read-Means now s (S.read E.state_key s).0 h refl)
