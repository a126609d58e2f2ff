-- ===== src/Engine/Interleaved.antt =====
-- packages/core/src/group-commit.ts with runs of the write loop that overlap: a run stands at an
-- `await`, and goes on when what it waits for is answered. `submit` and `stop` come at any time, and a
-- timer that fires while another run is under way starts one more. What the store and the clock
-- answer is an argument. A run ends with the promises of its batch that it has not settled.
pub mod Once
pub mod Accounted
use osqueue.Base.{
  ℕ, zero, suc, Bool, true, false, not, ◌&&◌, List, [], ◌∷◌, ◌++◌, Option, none, some,
  if◌then◌else◌, length, ltb, is_some, get_elem?, set,
}
use osqueue.Types.{JobId, StorageVersion, QueueState, Mutation}
use osqueue.Types.Errors.{Thrown, Result, ok, thrown, is_cas_conflict}
use osqueue.Queue.{empty_state, expire_heartbeats}
use osqueue.Storage.{StorageReadResult}
use osqueue.Engine.{
  Codec, Options, Pending, Engine, Batched, engine_error, wrap_engine, schedule_loop, submit, stop,
  reject_all, resolve_all, apply_batch,
}

-- Where a call of `start` or of `writeLoop` waits; a batch comes with the retries that are left.
pub data Run : Type 0 where
  -- `start`, for the creation of the object, and for the read after a conflict.
  creating recovering : Run
  -- `processBuffer`, for the read, the write and the backoff.
  refreshing : List Pending → ℕ → Run
  writing : List Pending → ℕ → Batched → StorageVersion → Run
  backing_off : List Pending → ℕ → Run
  -- `processBuffer` has returned or thrown.
  returning : Result (Unit {0}) → List Pending → Run
  over : List Pending → Run

pub record Runtime : Type 0 where
  pub engine : Engine
  pub runs : List Run

module _ (uuid : ℕ → JobId) (K : Codec) (o : Options) where
  pub data Answer : Type 0 where
    read_answer : Result (Option (StorageReadResult K.Bytes)) → Answer
    version_answer : Result StorageVersion → Answer
    -- A timer or a promise that is resolved without a value.
    go_on : Answer

  -- The rest of `refreshCache`.
  unfoldable pub cache_answer :
      Result (Option (StorageReadResult K.Bytes)) → Engine → Result (Unit {0}) × Engine
  cache_answer (thrown e) g = (thrown e, g)
  cache_answer (ok none) g = (ok tt, g)
  cache_answer (ok (some r)) g = elim (K.decode r.bytes) [
    | thrown e ↦ (thrown e, g)
    | ok state ↦ (ok tt, record g { cached_state = some state; cached_version = some r.version })
  ]

  -- An attempt from its second test on, up to the write.
  unfoldable pub prepare :
      List Pending → ℕ → ℕ → Engine → Option QueueState → Option StorageVersion → Engine × Run
  prepare batch retries now g (some cached) (some version) =
      let expired = expire_heartbeats cached now o.heartbeat_timeout_ms in
      let b = apply_batch uuid expired batch now g.drawn in
      (record g { drawn = b.drawn }, writing batch retries b version)
  prepare batch retries now g (some cached) none =
      (g, returning (thrown (engine_error "Failed to read queue state")) batch)
  prepare batch retries now g none version =
      (g, returning (thrown (engine_error "Failed to read queue state")) batch)

  unfoldable pub begin_attempt : List Pending → ℕ → ℕ → Engine → Engine × Run
  unfolding prepare
  begin_attempt batch retries now g =
      if is_some g.cached_state && is_some g.cached_version
      then prepare batch retries now g g.cached_state g.cached_version
      else (g, refreshing batch retries)

  unfoldable pub refreshed : List Pending → ℕ → ℕ → Result (Unit {0}) × Engine → Engine × Run
  unfolding prepare
  refreshed batch retries now (thrown e, g) = (g, returning (thrown e) batch)
  refreshed batch retries now (ok _, g) =
      prepare batch retries now g g.cached_state g.cached_version

  unfoldable pub give_up : Thrown → List Pending → Engine → Engine × Run
  unfolding reject_all
  give_up e batch g =
      (record g { settled = g.settled ++ reject_all (wrap_engine e) batch }, returning (ok tt) [])

  unfoldable pub conflicted : Thrown → List Pending → ℕ → Engine → Engine × Run
  unfolding give_up
  conflicted e batch zero g = give_up e batch g
  conflicted e batch (suc retries) g = (g, backing_off batch retries)

  unfoldable pub write_answered :
      List Pending → ℕ → Batched → Result StorageVersion → Engine → Engine × Run
  unfolding resolve_all give_up conflicted
  write_answered batch retries b (ok version) g = (
    record g {
      cached_state = some b.state;
      cached_version = some version;
      settled = g.settled ++ resolve_all batch b.results;
    },
    returning (ok tt) [],
  )
  write_answered batch retries b (thrown e) g =
      if is_cas_conflict e
      then conflicted e batch retries (record g { cached_version = none })
      else give_up e batch g

  -- The rest of `writeLoop`, after its `catch`.
  unfoldable pub reschedule_after : Engine → Engine
  unfolding schedule_loop
  reschedule_after g =
      if g.running && ltb 0 (length g.buffer)
      then schedule_loop 0 g
      else if g.running
      then schedule_loop o.interval_ms g
      else g

  unfoldable pub loop_returned : Result (Unit {0}) → Engine → Engine
  unfolding reschedule_after reject_all
  loop_returned (ok _) g = reschedule_after g
  loop_returned (thrown e) g =
      reschedule_after
        (record g { buffer = []; settled = g.settled ++ reject_all (wrap_engine e) g.buffer })

  -- `ensureStateExists` is done.
  unfoldable pub ensured : Result (Unit {0}) × Engine → Engine × Run
  unfolding schedule_loop
  ensured (thrown e, g) = (g, over [])
  ensured (ok _, g) = (schedule_loop 0 g, over [])

  unfoldable pub created : Result StorageVersion → Engine → Engine × Run
  unfolding ensured
  created (ok version) g =
      ensured (ok tt, record g { cached_state = some empty_state; cached_version = some version })
  created (thrown e) g =
      if is_cas_conflict e then (g, recovering) else ensured (thrown (wrap_engine e), g)

  -- A run goes on. An answer that it does not wait for does not come.
  unfoldable pub answer_run : ℕ → Answer → Engine → Run → Engine × Run
  unfolding cache_answer refreshed write_answered begin_attempt loop_returned created ensured
  answer_run now (version_answer v) g creating = created v g
  answer_run now (read_answer r) g recovering = ensured (cache_answer r g)
  answer_run now (read_answer r) g (refreshing batch retries) =
      refreshed batch retries now (cache_answer r g)
  answer_run now (version_answer v) g (writing batch retries b version) =
      write_answered batch retries b v g
  answer_run now go_on g (backing_off batch retries) = begin_attempt batch retries now g
  answer_run now go_on g (returning r batch) = (loop_returned r g, over batch)
  answer_run now a g run = (g, run)

  -- `processBuffer` up to its first `await`.
  unfoldable pub begin_process : List Pending → ℕ → Engine → Engine × Run
  unfolding begin_attempt
  begin_process [] now g = (g, returning (ok tt) [])
  begin_process (pm ∷ batch) now g =
      begin_attempt (pm ∷ batch) o.max_retries now (record g { buffer = [] })

  pub add_run : List Run → Engine × Run → Runtime
  add_run runs (g, run) = record { engine = g; runs = runs ++ run ∷ [] }

  pub put_run : List Run → ℕ → Engine × Run → Runtime
  put_run runs i (g, run) = record { engine = g; runs = set runs i run }

  pub data Event : Type 0 where
    starts : Event
    submits : Mutation → Event
    stops : Event
    -- The timer of the loop fires, at a time.
    fires : ℕ → Event
    -- The run at a place is answered, at a time.
    answers : ℕ → ℕ → Answer → Event

  unfoldable pub fire : ℕ → Option ℕ → Runtime → Runtime
  unfolding begin_process add_run
  fire now none t = t
  fire now (some delay_ms) t =
      let g : Engine = record (t.engine) { loop_timer = none } in
      if g.running then add_run t.runs (begin_process g.buffer now g) else record t { engine = g }

  unfoldable pub answer_at : ℕ → ℕ → Answer → Option Run → Runtime → Runtime
  unfolding answer_run put_run
  answer_at i now a none t = t
  answer_at i now a (some run) t = put_run t.runs i (answer_run now a t.engine run)

  unfoldable pub next : Event → Runtime → Runtime
  unfolding fire answer_at
  next starts t =
      if t.engine.running
      then t
      else record { engine = record (t.engine) { running = true }; runs = t.runs ++ creating ∷ [] }
  next (submits m) t = record t { engine = submit m t.engine }
  next stops t = record t { engine = stop t.engine }
  next (fires now) t = fire now t.engine.loop_timer t
  next (answers i now a) t = answer_at i now a (get_elem? t.runs i) t

  unfoldable pub run_events : List Event → Runtime → Runtime
  unfolding next
  run_events [] t = t
  run_events (e ∷ events) t = run_events events (next e t)
