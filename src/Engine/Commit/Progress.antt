-- ===== src/Engine/Commit/Progress.antt =====
-- Whether `processBuffer` of packages/core/src/group-commit.ts succeeds, by the number of times that other
-- clients interfere.
use osqueue.Base.{
  ℕ, zero, suc, ◌≡◌, refl, sym, ap, subst, ◌∙◌, if◌then◌else◌, List, [], ◌∷◌, ◌++◌, arith,
}
use mathlib.Core.List.{append-nil}
use osqueue.Types.{JobId}
use osqueue.Types.Errors.{Result, ok, thrown, is_cas_conflict}
use osqueue.Queue.{empty_state}
use osqueue.Storage.{StorageBackend}
use osqueue.Engine.{Codec, Options, Pending, World, apply_batch, resolve_all}
use osqueue.Engine.Commit.{
  Attempted, escaped, done, refused, attempt, attempts, drained, process, process_buffer,
  reject_batch,
}
use osqueue.Engine.Commit.Contention.{Contention, Ready, Resolves, Advances, attempt-Advances}

module _ (uuid : ℕ → JobId) (K : Codec) (S : StorageBackend K.Bytes) (o : Options)
    (C : Contention K S o.state_key) where
  -- What `processBuffer` comes to: it returns, and the batch is resolved.
  abbrev pub Succeeds : List Pending → World S.State → Result (Unit {0}) × World S.State → Type 0
  Succeeds batch w (r, w') = (r ≡ ok tt) × Resolves uuid K S o C batch w w'

  Succeeds-from :
      (batch : List Pending) (w u : World S.State) (x : Result (Unit {0}) × World S.State)
      → u.engine.settled ≡ w.engine.settled
      → Succeeds batch u x
      → Succeeds batch w x
  Succeeds-from batch w u (r, w') q (e, (state, now, drawn, p)) = (
    e,
    (
      state,
      now,
      drawn,
      p ∙ ap (λ l. l ++ resolve_all batch (apply_batch uuid state batch now drawn).results) q,
    ),
  )

  -- The end of the last attempt.
  last_attempt : List Pending → Attempted uuid K S o → Result (Unit {0}) × World S.State
  last_attempt batch (escaped e w') = (thrown e, w')
  last_attempt batch (done w') = (ok tt, w')
  last_attempt batch (refused e w') = reject_batch uuid K S o e batch w'

  last-Succeeds :
      (batch : List Pending) (w : World S.State) (x : Attempted uuid K S o)
      → Advances uuid K S o C 0 batch w x
      → Succeeds batch w (last_attempt batch x)
  unfolding last_attempt
  last-Succeeds batch w (escaped e w') a = absurd a
  last-Succeeds batch w (done w') a = (refl, a)
  last-Succeeds batch w (refused e w') (c, m, same, h, q) = absurd (omega (arith, same))

  -- An attempt that may be followed by others, where `again` is what they come to.
  next_attempt :
      List Pending
      → (World S.State → Result (Unit {0}) × World S.State)
      → Attempted uuid K S o
      → Result (Unit {0}) × World S.State
  next_attempt batch again (escaped e w') = (thrown e, w')
  next_attempt batch again (done w') = (ok tt, w')
  next_attempt batch again (refused e w') =
      if is_cas_conflict e then again w' else reject_batch uuid K S o e batch w'

  next-Succeeds :
      (n : ℕ) (batch : List Pending) (again : World S.State → Result (Unit {0}) × World S.State)
      (w : World S.State) (x : Attempted uuid K S o)
      → ((u : World S.State) → Ready uuid K S o C n u → Succeeds batch u (again u))
      → Advances uuid K S o C (suc n) batch w x
      → Succeeds batch w (next_attempt batch again x)
  unfolding next_attempt
  next-Succeeds n batch again w (escaped e w') ih a = absurd a
  next-Succeeds n batch again w (done w') ih a = (refl, a)
  next-Succeeds n batch again w (refused e w') ih (c, m, same, h, q) =
      let least : m ≡ n = omega (arith, same) in
      rw (c, next_attempt)
        (Succeeds-from batch w w' (again w') q
          (ih w' (subst (λ k. Ready uuid K S o C k w') least h)))

  attempts-Succeeds :
      (n : ℕ) (batch : List Pending) (clock : ℕ → ℕ) (i : ℕ) (w : World S.State)
      → Ready uuid K S o C n w
      → Succeeds batch w (attempts uuid K S o n batch clock i w)
  unfolding attempts last_attempt next_attempt
  attempts-Succeeds zero batch clock i w h =
      last-Succeeds batch w (attempt uuid K S o batch (clock i) w)
        (attempt-Advances uuid K S o C 0 batch (clock i) w h)
  attempts-Succeeds (suc n) batch clock i w h =
      next-Succeeds n batch (attempts uuid K S o n batch clock (suc i)) w
        (attempt uuid K S o batch (clock i) w) (attempts-Succeeds n batch clock (suc i))
        (attempt-Advances uuid K S o C (suc n) batch (clock i) w h)

  process-Succeeds :
      (batch : List Pending) (clock : ℕ → ℕ) (w : World S.State)
      → Ready uuid K S o C o.max_retries w
      → Succeeds batch w (process uuid K S o batch clock w)
  unfolding process drained resolve_all
  process-Succeeds [] clock w h = (refl, (empty_state, 0, 0, sym (append-nil w.engine.settled)))
  process-Succeeds (pm ∷ batch) clock w h =
      attempts-Succeeds o.max_retries (pm ∷ batch) clock 0 (drained uuid K S o w) h

  -- On a backend whose reads succeed and whose writes are refused only for conflicts: if the other
  -- clients interfere at most as often as the engine retries, and one time less where the version that
  -- is cached at the start is an old one, `processBuffer` returns and resolves every promise of the
  -- buffer, with the results of applying its mutations in order to a state of the queue.
  pub process_buffer-Succeeds :
      (clock : ℕ → ℕ) (w : World S.State)
      → Ready uuid K S o C o.max_retries w
      → let (r, w') = process_buffer uuid K S o clock w in
        (r ≡ ok tt) × Resolves uuid K S o C w.engine.buffer w w'
  unfolding process_buffer
  process_buffer-Succeeds clock w h = process-Succeeds w.engine.buffer clock w h
