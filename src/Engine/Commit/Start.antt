-- ===== src/Engine/Commit/Start.antt =====
-- `start` of packages/core/src/group-commit.ts: the outcome of creating the state object and, where
-- it is there already, of reading it.
use osqueue.Base.{
  Bool, if◌then◌else◌, ◌≡◌, refl, inl, inr, true, false, [], ◌∷◌, Option, some, none, ℕ, Bool-cases,
}
use osqueue.Types.{JobId, QueueState, StorageVersion}
use osqueue.Types.Errors.{Thrown, Result, ok, thrown, is_cas_conflict}
use osqueue.Queue.{empty_state}
use osqueue.Storage.{StorageBackend, StorageReadResult}
use osqueue.Storage.Journal.{JournalView, IsJournaled}
use osqueue.Engine.{Codec, Options, World, schedule_loop, wrap_engine}
use osqueue.Engine.Commit.{cache_read, refresh_cache, state_not_created, ensure_state_exists, start}
use osqueue.Engine.Commit.Coherence.{Result-cases, Coherent-Extends, IsSane, refresh_cache-HasRead}

module _ (uuid : ℕ → JobId) (K : Codec) (S : StorageBackend K.Bytes) (o : Options)
    (V : JournalView S) (J : IsJournaled S o.state_key V)
    (decode-encode : (state : QueueState) → K.decode (K.encode state) ≡ ok state) where
  abbrev pub creation : S.State → Result StorageVersion × S.State
  creation s = S.create_if_not_exists o.state_key (K.encode empty_state) s

  abbrev pub reading : S.State → Result (Option (StorageReadResult K.Bytes)) × S.State
  reading s = S.read o.state_key (creation s).1

  -- The cache is as it was.
  abbrev pub Keeps : Option QueueState → Option StorageVersion → World S.State → Type 0
  Keeps state version w' = (w'.engine.cached_state ≡ state) × (w'.engine.cached_version ≡ version)

  -- How the state object came to be there, or why not: from the store, and the cached state and
  -- version before.
  pub data Ensures (s : S.State) (state : Option QueueState) (version : Option StorageVersion)
      (r : Result (Unit {0})) (w' : World S.State) : Type 0 where
    -- The object was not there; its first content is the empty state, which is cached.
    created :
        (v : StorageVersion)
        → (creation s).0 ≡ ok v
        → V.journal s ≡ []
        → V.journal w'.store ≡ K.encode empty_state ∷ []
        → Keeps (some empty_state) (some v) w'
        → r ≡ ok tt
        → Ensures s state version r w'
    -- The object could not be created.
    not_created :
        (e : Thrown)
        → (creation s).0 ≡ thrown e
        → is_cas_conflict e ≡ false
        → Keeps state version w'
        → r ≡ thrown (wrap_engine e)
        → Ensures s state version r w'
    -- The object was there, and its content is cached.
    found :
        (e : Thrown) (b : StorageReadResult K.Bytes) (held : QueueState)
        → (creation s).0 ≡ thrown e
        → is_cas_conflict e ≡ true
        → (reading s).0 ≡ ok (some b)
        → K.decode b.bytes ≡ ok held
        → V.Names (V.journal w'.store) b.version b.bytes
        → Keeps (some held) (some b.version) w'
        → r ≡ ok tt
        → Ensures s state version r w'
    -- The object was there when it was to be created, and not when it was read.
    missing :
        (e : Thrown)
        → (creation s).0 ≡ thrown e
        → is_cas_conflict e ≡ true
        → (reading s).0 ≡ ok none
        → Keeps state version w'
        → r ≡ ok tt
        → Ensures s state version r w'
    -- The object was there, and could not be read.
    unreadable :
        (e x : Thrown)
        → (creation s).0 ≡ thrown e
        → is_cas_conflict e ≡ true
        → (reading s).0 ≡ thrown x
        → Keeps state version w'
        → r ≡ thrown x
        → Ensures s state version r w'
    -- The object was there, and its content is not the text of a state.
    undecodable :
        (e x : Thrown) (b : StorageReadResult K.Bytes)
        → (creation s).0 ≡ thrown e
        → is_cas_conflict e ≡ true
        → (reading s).0 ≡ ok (some b)
        → K.decode b.bytes ≡ thrown x
        → Keeps state version w'
        → r ≡ thrown x
        → Ensures s state version r w'

  scheduled :
      (s : S.State) (state : Option QueueState) (version : Option StorageVersion)
      (r : Result (Unit {0})) (u : World S.State)
      → Ensures s state version r u
      → Ensures s state version r (record u { engine = schedule_loop 0 u.engine })
  unfolding schedule_loop
  scheduled s state version r u (created v a b c d e) = Ensures.created v a b c d e
  scheduled s state version r u (not_created x a b c d) = Ensures.not_created x a b c d
  scheduled s state version r u (found x b h a c d e f g i) = Ensures.found x b h a c d e f g i
  scheduled s state version r u (missing x a b c d e) = Ensures.missing x a b c d e
  scheduled s state version r u (unreadable x y a b c d e) = Ensures.unreadable x y a b c d e
  scheduled s state version r u (undecodable x y b a c d e f g) =
      Ensures.undecodable x y b a c d e f g

  module _ (w : World S.State) (h : IsSane uuid K S o V J w) (e : Thrown)
      (refused : (creation w.store).0 ≡ thrown e) (conflict : is_cas_conflict e ≡ true) where
    abbrev after : World S.State
    after = record w { store = (creation w.store).1 }

    refresh_cache-Ensures :
        let (r, w') = refresh_cache uuid K S o after in
        Ensures w.store w.engine.cached_state w.engine.cached_version r w'
    unfolding refresh_cache cache_read
    refresh_cache-Ensures = elim (Result-cases (reading w.store).0) [
      | inr (x, er) ↦
          rw (er, refresh_cache) (Ensures.unreadable e x refused conflict er (refl, refl) refl)
      | inl (none, er) ↦
          rw (er, refresh_cache) (Ensures.missing e refused conflict er (refl, refl) refl)
      | inl (some b, er) ↦ elim (Result-cases (K.decode b.bytes)) [
        | inr (x, ed) ↦
            rw (er, refresh_cache)
              (rw (ed, cache_read)
                (Ensures.undecodable e x b refused conflict er ed (refl, refl) refl))
        | inl (held, ed) ↦
            let named =
              J.read-some (creation w.store).1 b
                (J.create-IsValid w.store (K.encode empty_state) h.valid) er in
            rw (er, refresh_cache)
              (rw (ed, cache_read)
                (Ensures.found e b held refused conflict er ed named (refl, refl) refl))
      ]
    ]

  ensure_state_exists-Ensures :
      (w : World S.State)
      → IsSane uuid K S o V J w
      → let (r, w') = ensure_state_exists uuid K S o w in
        Ensures w.store w.engine.cached_state w.engine.cached_version r w'
  unfolding ensure_state_exists state_not_created
  ensure_state_exists-Ensures w h = elim (Result-cases (creation w.store).0) [
    | inl (v, er) ↦
        let (empty, added, _) = J.create-ok w.store (K.encode empty_state) v h.valid er in
        rw (er, ensure_state_exists) (Ensures.created v er empty added (refl, refl) refl)
    | inr (e, er) ↦ elim (Bool-cases (is_cas_conflict e)) [
      | inl c ↦ rw (er, ensure_state_exists) (rw c (refresh_cache-Ensures w h e er c))
      | inr c ↦ rw (er, ensure_state_exists) (rw c (Ensures.not_created e er c (refl, refl) refl))
    ]
  ]

  -- The cache is coherent, no promise was settled, and whether the engine runs, and its timer, are as
  -- they were.
  abbrev pub Calm : World S.State → World S.State → Type 0
  Calm w w' =
      IsSane uuid K S o V J w'
      × (w'.engine.settled ≡ w.engine.settled)
      × (w'.engine.running ≡ w.engine.running)
      × (w'.engine.loop_timer ≡ w.engine.loop_timer)

  refresh_cache-same :
      (w : World S.State)
      → let w' = (refresh_cache uuid K S o w).1 in
        (w'.engine.running ≡ w.engine.running) × (w'.engine.loop_timer ≡ w.engine.loop_timer)
  unfolding refresh_cache cache_read
  refresh_cache-same w = elim (Result-cases (S.read o.state_key w.store).0) [
    | inr (x, er) ↦ rw (er, refresh_cache) (refl, refl)
    | inl (none, er) ↦ rw (er, refresh_cache) (refl, refl)
    | inl (some b, er) ↦ elim (Result-cases (K.decode b.bytes)) [
      | inr (x, ed) ↦ rw (er, refresh_cache) (rw (ed, cache_read) (refl, refl))
      | inl (held, ed) ↦ rw (er, refresh_cache) (rw (ed, cache_read) (refl, refl))
    ]
  ]

  ensure_state_exists-Calm :
      (w : World S.State) → IsSane uuid K S o V J w → Calm w (ensure_state_exists uuid K S o w).1
  unfolding ensure_state_exists state_not_created
  ensure_state_exists-Calm w h = elim (Result-cases (creation w.store).0) [
    | inl (v, er) ↦
        let (_, added, named) = J.create-ok w.store (K.encode empty_state) v h.valid er in
        rw (er, ensure_state_exists)
          (
            record {
              valid = J.create-IsValid w.store (K.encode empty_state) h.valid;
              coherent = (K.encode empty_state, rw added named, decode-encode empty_state);
            },
            refl,
            refl,
            refl,
          )
    | inr (e, er) ↦
        let u : World S.State = record w { store = (creation w.store).1 } in
        let sane : IsSane uuid K S o V J u = record {
          valid = J.create-IsValid w.store (K.encode empty_state) h.valid;
          coherent =
              Coherent-Extends uuid K S o V J w.engine.cached_state w.engine.cached_version _ _
                (J.create_extends w.store (K.encode empty_state) h.valid) h.coherent;
        } in
        elim (Bool-cases (is_cas_conflict e)) [
          | inr c ↦ rw (er, ensure_state_exists) (rw c (sane, refl, refl, refl))
          | inl c ↦
              let read = refresh_cache-HasRead uuid K S o V J u sane in
              let (running, timer) = refresh_cache-same u in
              rw (er, ensure_state_exists) (rw c (read.sane, read.same_settled, running, timer))
        ]
  ]

  abbrev pub timer_after : Result (Unit {0}) → Option ℕ → Option ℕ
  timer_after (ok _) timer = some 0
  timer_after (thrown e) timer = timer

  -- What `start` leaves, from a store and the cached state, version, timer and settled promises.
  abbrev pub Starts : World S.State → Result (Unit {0}) × World S.State → Type 0
  Starts w (r, w') =
      Ensures w.store w.engine.cached_state w.engine.cached_version r w'
      × IsSane uuid K S o V J w'
      × (w'.engine.settled ≡ w.engine.settled)
      × (w'.engine.loop_timer ≡ timer_after r w.engine.loop_timer)
      × (w'.engine.running ≡ true)
      × (start uuid K S o w' ≡ (ok tt, w'))

  start_running : (w : World S.State) → w.engine.running ≡ true → start uuid K S o w ≡ (ok tt, w)
  unfolding start
  start_running w up = rw up refl

  by_result :
      (w : World S.State) (r : Result (Unit {0})) (u : World S.State)
      → Ensures w.store w.engine.cached_state w.engine.cached_version r u
      → Calm (record w { engine = record (w.engine) { running = true } }) u
      → Starts w (elim r [
        | thrown e ↦ (thrown e, u)
        | ok _ ↦ (ok tt, record u { engine = schedule_loop 0 u.engine })
      ])
  unfolding schedule_loop
  by_result w (thrown e) u h (sane, settled, running, timer) =
      (h, sane, settled, timer, running, start_running u running)
  by_result w (ok done) u h (sane, settled, running, timer) = (
    scheduled w.store w.engine.cached_state w.engine.cached_version (ok tt) u h,
    record { valid = sane.valid; coherent = sane.coherent },
    settled,
    refl,
    running,
    start_running _ running,
  )

  if_stopped :
      (w : World S.State) (b : Bool) (x y : Result (Unit {0}) × World S.State)
      → b ≡ false
      → Starts w y
      → Starts w (if b then x else y)
  if_stopped w true x y e h = absurd (cc)
  if_stopped w false x y e h = h

  -- On a backend that keeps the contract of a journal, with a coherent cache, if decoding gives back
  -- what was encoded, and whatever other clients do: `start` of an engine that does not run makes the
  -- empty state the first content of the object, if the backend creates it, and caches it; after a
  -- conflict it caches what the object holds, or keeps its cache if nothing can be read; and it
  -- throws the error of the backend, wrapped where it comes from the creation, otherwise. Where it
  -- returns, its timer is set. The cache is coherent and no promise is settled. In each case, a
  -- failure included, the engine counts as running, and another `start` returns at once and does
  -- nothing.
  pub start-Starts :
      (w : World S.State)
      → IsSane uuid K S o V J w
      → w.engine.running ≡ false
      → Starts w (start uuid K S o w)
  unfolding start
  start-Starts w h stopped =
      let w0 : World S.State = record w { engine = record (w.engine) { running = true } } in
      let sane : IsSane uuid K S o V J w0 = record { valid = h.valid; coherent = h.coherent } in
      if_stopped w w.engine.running _ _ stopped (
        by_result w (ensure_state_exists uuid K S o w0).0 (ensure_state_exists uuid K S o w0).1
          (ensure_state_exists-Ensures w0 sane) (ensure_state_exists-Calm w0 sane))
