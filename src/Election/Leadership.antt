-- ===== src/Election/Leadership.antt =====
-- What `checkLeadership` of packages/core/src/broker-election.ts finds out.
use osqueue.Base.{
  ◌≡◌, ◌≢◌, refl, ◌⊎◌, inl, inr, Bool, true, false, List, Option, none, some, Bool-cases, ◌==◌,
  option_eq, string_eq, ==→≡, arith,
}
use osqueue.Types.{QueueState}
use osqueue.Types.Errors.{Result, ok, thrown}
use osqueue.Storage.{StorageBackend, StorageReadResult}
use osqueue.Storage.Journal.{JournalView, IsJournaled}
use osqueue.Engine.{Codec}
use osqueue.Election.{BrokerElection, leads, leadership_of, check_leadership}
use osqueue.Election.Safety.{Held, read_as-Held}

module _ (E : BrokerElection) (K : Codec) (S : StorageBackend K.Bytes) (V : JournalView S)
    (J : IsJournaled S E.state_key V) where
  -- What `checkLeadership` says about the contents of the journal.
  abbrev pub Leads :
      Result (Option (StorageReadResult K.Bytes)) → List K.Bytes → Result Bool → Type 0
  Leads read journal (ok true) =
      (state : QueueState) × Held E K S V J state journal × (state.broker ≡ some E.broker_address)
  Leads read journal (ok false) =
      ((state : QueueState) × Held E K S V J state journal × (state.broker ≢ some E.broker_address))
      ⊎ (read ≡ ok none)
  Leads read journal (thrown e) = Unit {0}

  is_named :
      (state : QueueState)
      → (state.broker == some E.broker_address) ≡ true
      → state.broker ≡ some E.broker_address
  is_named state h = ==→≡ state.broker (some E.broker_address) h

  is_not_named :
      (state : QueueState)
      → (state.broker == some E.broker_address) ≡ false
      → state.broker ≢ some E.broker_address
  is_not_named state h = ground arith

  leads-Leads :
      (read : Result (Option (StorageReadResult K.Bytes))) (state : QueueState)
      (journal : List K.Bytes)
      → Held E K S V J state journal
      → Leads read journal (leads E K S (ok state))
  unfolding leads
  leads-Leads read state journal held = elim (Bool-cases (state.broker == some E.broker_address)) [
    | inl own ↦ rw (own, leads) (state, held, is_named state own)
    | inr other ↦ rw (other, leads) (inl (state, held, is_not_named state other))
  ]

  decoded-Leads :
      (read : Result (Option (StorageReadResult K.Bytes))) (d : Result QueueState)
      (journal : List K.Bytes)
      → ((state : QueueState) → d ≡ ok state → Held E K S V J state journal)
      → Leads read journal (leads E K S d)
  unfolding leads
  decoded-Leads read (thrown e) journal held = tt
  decoded-Leads read (ok state) journal held = leads-Leads read state journal (held state refl)

  read-Leads :
      (s : S.State) (r : Result (Option (StorageReadResult K.Bytes)))
      → V.IsValid s
      → (S.read E.state_key s).0 ≡ r
      → Leads r (V.journal (S.read E.state_key s).1) (leadership_of E K S r)
  unfolding leadership_of
  read-Leads s (thrown e) h q = tt
  read-Leads s (ok none) h q = inr refl
  read-Leads s (ok (some r)) h q =
      decoded-Leads (ok (some r)) (K.decode r.bytes) _
        λ state d. read_as-Held E K S V J state r.version _ (r.bytes, J.read-some s r h q, d)

  -- On a backend that keeps the contract of a journal: if `checkLeadership` says yes, a content of
  -- the journal names this broker; if it says no, one names another broker or none, or the read
  -- found no object.
  pub check_leadership-Leads :
      (s : S.State)
      → V.IsValid s
      → let (r, s') = check_leadership E K S s in Leads (S.read E.state_key s).0 (V.journal s') r
  unfolding check_leadership
  check_leadership-Leads s h = read-Leads s (S.read E.state_key s).0 h refl
