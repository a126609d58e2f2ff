-- ===== src/Engine/Commit/Registered.antt =====
-- packages/core/src/group-commit.ts: what comes of a broker's registration that is the first mutation of
-- a new engine, as packages/broker/src/server.ts submits it.
pub mod Started
use osqueue.Base.{
  ℕ, zero, suc, ◌≡◌, refl, ap, sym, ◌∙◌, subst, ◌⊎◌, inl, inr, true, ◌&&◌, [], ◌∷◌, ◌++◌, Option,
  none, some, String, Bool-cases, ltb, length,
}
use mathlib.Core.List.{append-nil}
use osqueue.Types.{JobId, StorageVersion, QueueState, Mutation, MutationResult}
use osqueue.Types.Errors.{Thrown, Result, ok, thrown, is_cas_conflict}
use osqueue.Queue.{empty_state, expire_heartbeats, apply_mutation, register_broker}
use osqueue.Storage.{StorageBackend}
use osqueue.Engine.{
  Codec, Options, Pending, Engine, World, resolved, rejected, apply_batch, resolve_all, reject_all,
  wrap_engine, submit, schedule_loop, new_engine,
}
use osqueue.Engine.Commit.{
  Attempted, escaped, done, refused, cache_read, refresh_cache, is_cached, ensure_cached, committed,
  write_failed, write_batch, with_cache, after_ensure, attempt, give_up_batch, reject_batch,
  attempts, drained, process, process_buffer, reject_buffer, reschedule, submit_all, resume,
  write_loop, state_not_created, ensure_state_exists, start,
}
use osqueue.Engine.Commit.Coherence.{Result-cases}

-- An engine that runs and has settled nothing, whose next ticket is `n` and whose buffer is empty.
abbrev pub quiet : ℕ → Option QueueState → Option StorageVersion → Option ℕ → ℕ → Engine
quiet n state version timer drawn = record {
  buffer = [];
  cached_state = state;
  cached_version = version;
  running = true;
  loop_timer = timer;
  next_ticket = n;
  settled = [];
  drawn = drawn;
}

abbrev pub IsQuiet : ℕ → Engine → Type 0
IsQuiet n g =
    (state : Option QueueState) × (version : Option StorageVersion) × (timer : Option ℕ)
    × (drawn : ℕ) × (g ≡ quiet n state version timer drawn)

module _ (uuid : ℕ → JobId) (K : Codec) (S : StorageBackend K.Bytes) (eo : Options) (name : String)
    (at : ℕ) where
  open S use {State}

  abbrev pub registration : Pending
  registration = record { ticket = 0; mutation = Mutation.register_broker name at }

  -- The store took a state that names this broker, with the time of the registration as its
  -- heartbeat; the engine has cached this state, and the registration is the one promise that was
  -- settled, as resolved.
  pub record Registers (w : World State) : Type 0 where
    pub state : QueueState
    pub named : state.broker ≡ some name
    pub beat : state.broker_heartbeat ≡ at
    pub cached : w.engine.cached_state ≡ some state
    pub onto : StorageVersion
    pub version : StorageVersion
    pub before : State
    pub written : S.write eo.state_key (K.encode state) onto before ≡ (ok version, w.store)
    pub result : MutationResult
    pub settles : w.engine.settled ≡ (0, resolved result) ∷ []

  -- The registration was committed, or its promise is not resolved.
  abbrev pub Told : World State → Type 0
  Told w =
      Registers w
      ⊎ (w.engine.settled ≡ [])
      ⊎ (e : Thrown) × (w.engine.settled ≡ (0, rejected e) ∷ [])

  abbrev Knows : Attempted uuid K S eo → Type 0
  Knows (escaped e w) = IsQuiet 1 w.engine
  Knows (refused e w) = IsQuiet 1 w.engine
  Knows (done w) = Registers w × (w.engine.buffer ≡ [])

  pub refresh_cache-IsQuiet :
      (n : ℕ) (c : Option QueueState) (v : Option StorageVersion) (t : Option ℕ) (d : ℕ) (s : State)
      → IsQuiet n
          (refresh_cache uuid K S eo (record { engine = quiet n c v t d; store = s })).1.engine
  unfolding refresh_cache cache_read
  refresh_cache-IsQuiet n c v t d s = elim (Result-cases (S.read eo.state_key s).0) [
    | inr (x, er) ↦ rw (er, refresh_cache) (c, v, t, d, refl)
    | inl (none, er) ↦ rw (er, refresh_cache) (c, v, t, d, refl)
    | inl (some b, er) ↦ elim (Result-cases (K.decode b.bytes)) [
      | inr (x, ed) ↦ rw (er, refresh_cache) (rw (ed, cache_read) (c, v, t, d, refl))
      | inl (held, ed) ↦
          rw (er, refresh_cache) (rw (ed, cache_read) (some held, some b.version, t, d, refl))
    ]
  ]

  ensure_cached-IsQuiet :
      (c : Option QueueState) (v : Option StorageVersion) (t : Option ℕ) (d : ℕ) (s : State)
      → IsQuiet 1
          (ensure_cached uuid K S eo (record { engine = quiet 1 c v t d; store = s })).1.engine
  unfolding ensure_cached
  ensure_cached-IsQuiet c v t d s = elim (Bool-cases (is_cached uuid K S eo (quiet 1 c v t d))) [
    | inl e ↦ rw e (c, v, t, d, refl)
    | inr e ↦ rw e (refresh_cache-IsQuiet 1 c v t d s)
  ]

  write_batch-Knows :
      (now : ℕ) (c : QueueState) (v : StorageVersion) (c' : Option QueueState)
      (v' : Option StorageVersion) (t : Option ℕ) (d : ℕ) (s : State)
      → Knows (
          write_batch uuid K S eo
            (registration ∷ [])
            now
            (record { engine = quiet 1 c' v' t d; store = s })
            c
            v)
  unfolding write_batch committed write_failed apply_batch apply_mutation register_broker
      resolve_all
  write_batch-Knows now c v c' v' t d s =
      let expired = expire_heartbeats c now eo.heartbeat_timeout_ms in
      let state = register_broker expired name at in
      elim (Result-cases (S.write eo.state_key (K.encode state) v s).0) [
        | inr (e, r) ↦ elim (Bool-cases (is_cas_conflict e)) [
          | inl b ↦ rw (r, write_batch) (rw b (c', none, t, d, refl))
          | inr b ↦ rw (r, write_batch) (rw b (c', v', t, d, refl))
        ]
        | inl (version, r) ↦
            rw (r, write_batch)
              (
                record {
                  state = state;
                  named = refl;
                  beat = refl;
                  cached = refl;
                  onto = v;
                  version = version;
                  before = s;
                  written = ap (λ x. (x, (S.write eo.state_key (K.encode state) v s).1)) r;
                  result = _;
                  settles = refl;
                },
                refl,
              )
      ]

  with_cache-Knows :
      (now : ℕ) (x : Option QueueState) (y : Option StorageVersion) (c : Option QueueState)
      (v : Option StorageVersion) (t : Option ℕ) (d : ℕ) (s : State)
      → Knows (
          with_cache uuid K S eo
            (registration ∷ [])
            now
            (record { engine = quiet 1 c v t d; store = s })
            x
            y)
  unfolding with_cache
  with_cache-Knows now (some x) (some y) c v t d s = write_batch-Knows now x y c v t d s
  with_cache-Knows now (some x) none c v t d s = (c, v, t, d, refl)
  with_cache-Knows now none y c v t d s = (c, v, t, d, refl)

  after_ensure-Knows :
      (now : ℕ) (r : Result (Unit {0})) (u : World State)
      → IsQuiet 1 u.engine
      → Knows (after_ensure uuid K S eo (registration ∷ []) now (r, u))
  unfolding after_ensure
  after_ensure-Knows now (thrown e) u h = h
  after_ensure-Knows now (ok _) u (c, v, t, d, e) =
      subst
        (λ (g : Engine). Knows (
          with_cache uuid K S eo (registration ∷ []) now (record { engine = g; store = u.store })
            g.cached_state g.cached_version))
        (sym e) (with_cache-Knows now c v c v t d u.store)

  attempt-Knows :
      (now : ℕ) (u : World State)
      → IsQuiet 1 u.engine
      → Knows (attempt uuid K S eo (registration ∷ []) now u)
  unfolding attempt
  attempt-Knows now u (c, v, t, d, e) =
      subst
        (λ (g : Engine).
          Knows
            (attempt uuid K S eo (registration ∷ []) now (record { engine = g; store = u.store })))
        (sym e)
        (after_ensure-Knows now
          (ensure_cached uuid K S eo (record { engine = quiet 1 c v t d; store = u.store })).0
          (ensure_cached uuid K S eo (record { engine = quiet 1 c v t d; store = u.store })).1
          (ensure_cached-IsQuiet c v t d u.store))

  -- What `processBuffer` leaves: its buffer is empty.
  abbrev pub Leaves : World State → Type 0
  Leaves w = Told w × (w.engine.buffer ≡ [])

  IsQuiet-Leaves : (w : World State) → IsQuiet 1 w.engine → Leaves w
  IsQuiet-Leaves w (c, v, t, d, e) =
      (inr (inl (ap (λ (g : Engine). g.settled) e)), ap (λ (g : Engine). g.buffer) e)

  reject_batch-Leaves :
      (x : Thrown) (w : World State)
      → IsQuiet 1 w.engine
      → Leaves (reject_batch uuid K S eo x (registration ∷ []) w).1
  unfolding reject_batch give_up_batch reject_all
  reject_batch-Leaves x w (c, v, t, d, e) = (
    inr (
        inr
          (wrap_engine x, ap (λ (g : Engine). g.settled ++ (0, rejected (wrap_engine x)) ∷ []) e)),
    ap (λ (g : Engine). g.buffer) e,
  )

  pub attempts-Leaves :
      (retries : ℕ) (clock : ℕ → ℕ) (i : ℕ) (w : World State)
      → IsQuiet 1 w.engine
      → Leaves (attempts uuid K S eo retries (registration ∷ []) clock i w).1
  unfolding attempts
  attempts-Leaves zero clock i w h =
      last (attempt uuid K S eo (registration ∷ []) (clock i) w) refl (attempt-Knows (clock i) w h)
    where
      last :
          (a : Attempted uuid K S eo)
          → attempt uuid K S eo (registration ∷ []) (clock i) w ≡ a
          → Knows a
          → Leaves (attempts uuid K S eo zero (registration ∷ []) clock i w).1
      last (escaped e u) q x = rw (q, attempts) (IsQuiet-Leaves u x)
      last (done u) q x = rw (q, attempts) (inl x.0, x.1)
      last (refused e u) q x = rw (q, attempts) (reject_batch-Leaves e u x)
  attempts-Leaves (suc retries) clock i w h =
      more (attempt uuid K S eo (registration ∷ []) (clock i) w) refl (attempt-Knows (clock i) w h)
        (attempts-Leaves retries clock (suc i))
    where
      more :
          (a : Attempted uuid K S eo)
          → attempt uuid K S eo (registration ∷ []) (clock i) w ≡ a
          → Knows a
          → ((u : World State)
              → IsQuiet 1 u.engine
              → Leaves (attempts uuid K S eo retries (registration ∷ []) clock (suc i) u).1)
          → Leaves (attempts uuid K S eo (suc retries) (registration ∷ []) clock i w).1
      more (escaped e u) q x again = rw (q, attempts) (IsQuiet-Leaves u x)
      more (done u) q x again = rw (q, attempts) (inl x.0, x.1)
      more (refused e u) q x again = elim (Bool-cases (is_cas_conflict e)) [
        | inl c ↦ rw (q, attempts) (rw c (again u x))
        | inr c ↦ rw (q, attempts) (rw c (reject_batch-Leaves e u x))
      ]
