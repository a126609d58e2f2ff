-- ===== src/Engine/Commit/Coherence.antt =====
-- The engine's cache: a state with a version stands for a content that the object has had.
use osqueue.Base.{
  ℕ, ◌≡◌, refl, inl, inr, List, Option, none, some, Extends, Extends-refl, Bool-cases, ◌⊎◌,
}
use osqueue.Types.{JobId, StorageVersion, QueueState}
use osqueue.Types.Errors.{Thrown, Result, ok, thrown}
use osqueue.Storage.{StorageBackend, StorageReadResult}
use osqueue.Storage.Journal.{JournalView, IsJournaled}
use osqueue.Engine.{Codec, Options, World}
use osqueue.Engine.Commit.{cache_read, refresh_cache, is_cached, ensure_cached}

module _ {ℓ} {A : Type ℓ} where
  pub Result-cases : (r : Result A) → ((a : A) × (r ≡ ok a)) ⊎ ((e : Thrown) × (r ≡ thrown e))
  Result-cases (ok a) = inl (a, refl)
  Result-cases (thrown e) = inr (e, refl)

module _ (uuid : ℕ → JobId) (K : Codec) (S : StorageBackend K.Bytes) (o : Options)
    (V : JournalView S) (J : IsJournaled S o.state_key V) where
  -- The version names a content that decodes to the state.
  abbrev pub Stored : QueueState → StorageVersion → List K.Bytes → Type 0
  Stored state v journal = (bytes : K.Bytes) × V.Names journal v bytes × (K.decode bytes ≡ ok state)

  abbrev pub Coherent : Option QueueState → Option StorageVersion → List K.Bytes → Type 0
  Coherent state none journal = Unit {0}
  Coherent none (some v) journal = ⊥
  Coherent (some state) (some v) journal = Stored state v journal

  pub Coherent-Extends :
      (state : Option QueueState) (v : Option StorageVersion) (old new : List K.Bytes)
      → Extends old new
      → Coherent state v old
      → Coherent state v new
  Coherent-Extends state none old new x h = tt
  Coherent-Extends none (some v) old new x h = h
  Coherent-Extends (some state) (some v) old new x (bytes, e, d) =
      (bytes, J.Names-Extends old new v bytes x e, d)

  -- The store keeps its contract and the cache is coherent with the journal.
  pub record IsSane (w : World S.State) : Type 0 where
    pub valid : V.IsValid w.store
    pub coherent : Coherent (w.engine.cached_state) (w.engine.cached_version) (V.journal w.store)

  -- The engine has read, at most: its cache may be new, and others may have added to the journal.
  pub record HasRead (w w' : World S.State) : Type 0 where
    pub sane : IsSane w'
    pub extends : Extends (V.journal w.store) (V.journal w'.store)
    pub same_settled : w'.engine.settled ≡ w.engine.settled
    pub same_drawn : w'.engine.drawn ≡ w.engine.drawn

  HasRead-self : (w : World S.State) → IsSane w → HasRead w w
  HasRead-self w h = record {
    sane = h;
    extends = Extends-refl _;
    same_settled = refl;
    same_drawn = refl;
  }

  -- Only the store has moved on.
  HasRead-store :
      (w : World S.State)
      → IsSane w
      → HasRead w (record w { store = (S.read o.state_key w.store).1 })
  HasRead-store w h = record {
    sane = record {
      valid = J.read-IsValid w.store h.valid;
      coherent =
          Coherent-Extends w.engine.cached_state w.engine.cached_version _ _
            (J.read_extends w.store h.valid) h.coherent;
    };
    extends = J.read_extends w.store h.valid;
    same_settled = refl;
    same_drawn = refl;
  }

  cache_read-HasRead :
      (w : World S.State) (r : Option (StorageReadResult K.Bytes))
      → IsSane w
      → (S.read o.state_key w.store).0 ≡ ok r
      → HasRead w (cache_read uuid K S o w.engine (S.read o.state_key w.store).1 r).1
  unfolding cache_read
  cache_read-HasRead w none h e = HasRead-store w h
  cache_read-HasRead w (some r) h e = elim (Result-cases (K.decode r.bytes)) [
    | inr (err, d) ↦ rw (d, cache_read) (HasRead-store w h)
    | inl (state, d) ↦
        let named = J.read-some w.store r h.valid e in
        rw (d, cache_read)
          (record {
            sane = record {
              valid = J.read-IsValid w.store h.valid;
              coherent = (r.bytes, named, d);
            };
            extends = J.read_extends w.store h.valid;
            same_settled = refl;
            same_drawn = refl;
          })
  ]

  pub refresh_cache-HasRead :
      (w : World S.State) → IsSane w → HasRead w (refresh_cache uuid K S o w).1
  unfolding refresh_cache
  refresh_cache-HasRead w h = elim (Result-cases (S.read o.state_key w.store).0) [
    | inr (err, e) ↦ rw (e, refresh_cache) (HasRead-store w h)
    | inl (r, e) ↦ rw (e, refresh_cache) (cache_read-HasRead w r h e)
  ]

  pub ensure_cached-HasRead :
      (w : World S.State) → IsSane w → HasRead w (ensure_cached uuid K S o w).1
  unfolding ensure_cached
  ensure_cached-HasRead w h = elim (Bool-cases (is_cached uuid K S o w.engine)) [
    | inl e ↦ rw (e, ensure_cached) (HasRead-self w h)
    | inr e ↦ rw (e, ensure_cached) (refresh_cache-HasRead w h)
  ]
