-- ===== src/Engine/Commit.antt =====
-- packages/core/src/group-commit.ts: the calls of the engine that read and write the store.
-- `Date.now()` is asked once for each attempt: `clock` gives the answer by the attempt's number.
-- The waits themselves take no part; what other clients do meanwhile is in the backend's state.
pub mod Coherence
pub mod Atomic
pub mod Outcome
pub mod Lost
pub mod Tickets
pub mod Start
pub mod Registered
pub mod Refines
pub mod Contention
pub mod Progress
pub mod Contended
use osqueue.Base.{
  ℕ, zero, suc, Bool, true, false, not, ◌&&◌, List, [], ◌∷◌, ◌++◌, Option, none, some,
  if◌then◌else◌, length, ltb, is_some,
}
use osqueue.Types.{JobId, StorageVersion, QueueState, Mutation}
use osqueue.Types.Errors.{Thrown, Result, ok, thrown, is_cas_conflict}
use osqueue.Queue.{empty_state, expire_heartbeats}
use osqueue.Storage.{StorageBackend, StorageReadResult}
use osqueue.Engine.{
  Codec, Options, Pending, Engine, World, Batched, engine_error, wrap_engine, schedule_loop, submit,
  reject_all, resolve_all, apply_batch,
}

module _ (uuid : ℕ → JobId) (K : Codec) (S : StorageBackend K.Bytes) (o : Options) where
  open S use {State, read, write, create_if_not_exists}

  cache_read : Engine → State → Option (StorageReadResult K.Bytes) → Result (Unit {0}) × World State
  cache_read g s none = (ok tt, record { engine = g; store = s })
  cache_read g s (some r) = elim (K.decode r.bytes) [
    | thrown e ↦ (thrown e, record { engine = g; store = s })
    | ok state ↦ (
      ok tt,
      record {
        engine = record g { cached_state = some state; cached_version = some r.version };
        store = s;
      },
    )
  ]

  unfoldable pub refresh_cache : World State → Result (Unit {0}) × World State
  unfolding cache_read
  refresh_cache w =
      let (r, s) = read o.state_key w.store in
      elim r [
        | thrown e ↦ (thrown e, record w { store = s })
        | ok result ↦ cache_read w.engine s result
      ]

  abbrev pub is_cached : Engine → Bool
  is_cached g = is_some g.cached_state && is_some g.cached_version

  -- The first test of an attempt: refresh the cache if it lacks its state or its version.
  pub ensure_cached : World State → Result (Unit {0}) × World State
  unfolding refresh_cache
  ensure_cached w = if is_cached w.engine then (ok tt, w) else refresh_cache w

  -- What a write that went through leaves in the engine.
  pub committed : List Pending → Batched → StorageVersion → Engine → Engine
  unfolding resolve_all
  committed batch b version g = record g {
    cached_state = some b.state;
    cached_version = some version;
    settled = g.settled ++ resolve_all batch b.results;
    drawn = b.drawn;
  }

  -- What a write that failed leaves in the engine, before the batch is tried again or rejected.
  -- The identifiers that the attempt drew are used up.
  pub write_failed : Thrown → Batched → Engine → Engine
  write_failed e b g =
      let g' : Engine = record g { drawn = b.drawn } in
      if is_cas_conflict e then record g' { cached_version = none } else g'

  pub give_up_batch : Thrown → List Pending → Engine → Engine
  unfolding reject_all
  give_up_batch e batch g = record g { settled = g.settled ++ reject_all (wrap_engine e) batch }

  -- The body of the loop of `processBuffer` up to the outcome of its write.
  pub data Attempted : Type 0 where
    -- An exception leaves `processBuffer`.
    escaped : Thrown → World State → Attempted
    -- The write went through, and the batch is resolved.
    done : World State → Attempted
    -- The write failed.
    refused : Thrown → World State → Attempted

  pub write_batch : List Pending → ℕ → World State → QueueState → StorageVersion → Attempted
  unfolding apply_batch committed write_failed
  write_batch batch now w cached version =
      let g = w.engine in
      let b =
        apply_batch uuid (expire_heartbeats cached now o.heartbeat_timeout_ms) batch now g.drawn in
      let (r, s) = write o.state_key (K.encode b.state) version w.store in
      elim r [
        | ok version' ↦ done (record { engine = committed batch b version' g; store = s })
        | thrown e ↦ refused e (record { engine = write_failed e b g; store = s })
      ]

  -- The second test of an attempt.
  pub with_cache :
      List Pending → ℕ → World State → Option QueueState → Option StorageVersion → Attempted
  unfolding write_batch
  with_cache batch now w (some cached) (some version) = write_batch batch now w cached version
  with_cache batch now w (some cached) none = escaped (engine_error "Failed to read queue state") w
  with_cache batch now w none version = escaped (engine_error "Failed to read queue state") w

  pub after_ensure : List Pending → ℕ → Result (Unit {0}) × World State → Attempted
  unfolding with_cache
  after_ensure batch now (thrown e, w) = escaped e w
  after_ensure batch now (ok _, w) =
      with_cache batch now w w.engine.cached_state w.engine.cached_version

  unfoldable pub attempt : List Pending → ℕ → World State → Attempted
  unfolding ensure_cached after_ensure
  attempt batch now w = after_ensure batch now (ensure_cached w)

  pub reject_batch : Thrown → List Pending → World State → Result (Unit {0}) × World State
  unfolding give_up_batch
  reject_batch e batch w = (ok tt, record w { engine = give_up_batch e batch w.engine })

  -- The loop, with the number of retries that are left: `attempt < maxRetries` is that it is
  -- not 0.
  unfoldable pub attempts :
      ℕ → List Pending → (ℕ → ℕ) → ℕ → World State → Result (Unit {0}) × World State
  unfolding attempt reject_batch
  attempts zero batch clock i w = elim (attempt batch (clock i) w) [
    | escaped e w' ↦ (thrown e, w')
    | done w' ↦ (ok tt, w')
    | refused e w' ↦ reject_batch e batch w'
  ]
  attempts (suc retries) batch clock i w = elim (attempt batch (clock i) w) [
    | escaped e w' ↦ (thrown e, w')
    | done w' ↦ (ok tt, w')
    | refused e w' ↦
        let again = attempts retries batch clock (suc i) w' in
        if is_cas_conflict e then again else reject_batch e batch w'
  ]

  pub drained : World State → World State
  drained w = record w { engine = record (w.engine) { buffer = [] } }

  pub process : List Pending → (ℕ → ℕ) → World State → Result (Unit {0}) × World State
  unfolding attempts drained
  process [] clock w = (ok tt, w)
  process (pm ∷ batch) clock w = attempts o.max_retries (pm ∷ batch) clock 0 (drained w)

  unfoldable pub process_buffer : (ℕ → ℕ) → World State → Result (Unit {0}) × World State
  unfolding process
  process_buffer clock w = process w.engine.buffer clock w

  -- The `catch` of `writeLoop`.
  reject_buffer : Thrown → Engine → Engine
  unfolding reject_all
  reject_buffer e g = record g {
    buffer = [];
    settled = g.settled ++ reject_all (wrap_engine e) g.buffer;
  }

  -- The last tests of `writeLoop`.
  reschedule : Engine → Engine
  unfolding schedule_loop
  reschedule g =
      if g.running && ltb 0 (length g.buffer)
      then schedule_loop 0 g
      else if g.running
      then schedule_loop o.interval_ms g
      else g

  -- What is submitted while `processBuffer` waits for the store. It touches the buffer no more.
  submit_all : List Mutation → Engine → Engine
  unfolding submit
  submit_all [] g = g
  submit_all (m ∷ arrivals) g = submit_all arrivals (submit m g)

  pub resume : List Mutation → Result (Unit {0}) × World State → World State
  unfolding reject_buffer reschedule submit_all
  resume arrivals (ok _, w) = record w { engine = reschedule (submit_all arrivals w.engine) }
  resume arrivals (thrown e, w) = record w {
    engine = reschedule (reject_buffer e (submit_all arrivals w.engine));
  }

  unfoldable pub write_loop : (ℕ → ℕ) → List Mutation → World State → World State
  unfolding process_buffer resume
  write_loop clock arrivals w =
      if not w.engine.running then w else resume arrivals (process_buffer clock w)

  -- The `catch` of `ensureStateExists`.
  pub state_not_created : Thrown → World State → Result (Unit {0}) × World State
  unfolding refresh_cache
  state_not_created e w = if is_cas_conflict e then refresh_cache w else (thrown (wrap_engine e), w)

  unfoldable pub ensure_state_exists : World State → Result (Unit {0}) × World State
  unfolding state_not_created
  ensure_state_exists w =
      let g = w.engine in
      let (r, s) = create_if_not_exists o.state_key (K.encode empty_state) w.store in
      elim r [
        | ok version ↦ (
          ok tt,
          record {
            engine = record g { cached_state = some empty_state; cached_version = some version };
            store = s;
          },
        )
        | thrown e ↦ state_not_created e (record w { store = s })
      ]

  unfoldable pub start : World State → Result (Unit {0}) × World State
  unfolding ensure_state_exists schedule_loop
  start w =
      if w.engine.running
      then (ok tt, w)
      else (let (r, w') =
            ensure_state_exists (record w { engine = record (w.engine) { running = true } }) in
          elim r [
            | thrown e ↦ (thrown e, w')
            | ok _ ↦ (ok tt, record w' { engine = schedule_loop 0 w'.engine })
          ])
