-- ===== src/Engine/Commit/Outcome.antt =====
-- What `processBuffer` of packages/core/src/group-commit.ts does with a batch.
use osqueue.Base.{
  ℕ, zero, suc, ◌≡◌, refl, ap, ◌∙◌, ◌⊎◌, inl, inr, List, [], ◌∷◌, ◌++◌, Extends, Extends-refl,
  Extends-trans, Bool-cases, ◌≢◌,
}
use osqueue.Types.{JobId, QueueState}
use osqueue.Types.Errors.{Thrown, Result, ok, thrown, is_cas_conflict}
use osqueue.Storage.{StorageBackend}
use osqueue.Storage.Journal.{JournalView, IsJournaled}
use osqueue.Engine.{Codec, Options, Pending, World, wrap_engine, reject_all}
use osqueue.Engine.Commit.{
  Attempted, escaped, done, refused, attempt, reject_batch, attempts, drained, process,
  process_buffer,
}
use osqueue.Engine.Commit.Coherence.{IsSane}
use osqueue.Engine.Commit.Atomic.{
  Commits, Commits-from, Idles, Idles-from, AttemptIsAtomic, attempt-AttemptIsAtomic,
}

module _ (uuid : ℕ → JobId) (K : Codec) (S : StorageBackend K.Bytes) (o : Options)
    (V : JournalView S) (J : IsJournaled S o.state_key V)
    (decode-encode : (state : QueueState) → K.decode (K.encode state) ≡ ok state) where
  -- All promises of the batch are rejected with one error.
  pub record Rejects (batch : List Pending) (w w' : World S.State) : Type 0 where
    pub error : Thrown
    pub extends : Extends (V.journal w.store) (V.journal w'.store)
    pub settles : w'.engine.settled ≡ w.engine.settled ++ reject_all (wrap_engine error) batch

  -- An error leaves `processBuffer`, and no promise of the batch is settled.
  pub record Escapes (r : Result (Unit {0})) (w w' : World S.State) : Type 0 where
    pub error : Thrown
    pub escapes : r ≡ thrown error
    pub idles : Idles uuid K S o V J decode-encode w w'

  abbrev pub Finishes : List Pending → World S.State → Result (Unit {0}) × World S.State → Type 0
  Finishes batch w (r, w') =
      IsSane uuid K S o V J w'
      × ((r ≡ ok tt) × Commits uuid K S o V J decode-encode batch w w'
          ⊎ (r ≡ ok tt) × Rejects batch w w'
          ⊎ Escapes r w w')

  reject_batch-Finishes :
      (e : Thrown) (batch : List Pending) (w u : World S.State)
      → Idles uuid K S o V J decode-encode w u
      → Finishes batch w (reject_batch uuid K S o e batch u)
  unfolding reject_batch
  reject_batch-Finishes e batch w u i = (
    record { valid = i.sane.valid; coherent = i.sane.coherent },
    inr (
        inl (
          refl,
          record {
            error = e;
            extends = i.extends;
            settles = ap (λ l. l ++ reject_all (wrap_engine e) batch) i.same_settled;
          },
        )),
  )

  -- What holds after a refused attempt holds from before it.
  Finishes-from :
      (batch : List Pending) (w u : World S.State) (r : Result (Unit {0}) × World S.State)
      → Idles uuid K S o V J decode-encode w u
      → Finishes batch u r
      → Finishes batch w r
  Finishes-from batch w u (r, w') i (h, inl (e, c)) = (
    h,
    inl (e, Commits-from uuid K S o V J decode-encode batch w u w' i.extends i.same_settled c),
  )
  Finishes-from batch w u (r, w') i (h, inr (inl (e, c))) = (
    h,
    inr (
        inl (
          e,
          record {
            error = c.error;
            extends = Extends-trans _ _ _ i.extends c.extends;
            settles =
                c.settles ∙ ap (λ l. l ++ reject_all (wrap_engine c.error) batch) i.same_settled;
          },
        )),
  )
  Finishes-from batch w u (r, w') i (h, inr (inr c)) = (
    h,
    inr (
        inr (record {
          error = c.error;
          escapes = c.escapes;
          idles = Idles-from uuid K S o V J decode-encode w u w' i.extends i.same_settled c.idles;
        })),
  )

  -- The end of the last attempt.
  finish : List Pending → Attempted uuid K S o → Result (Unit {0}) × World S.State
  finish batch (escaped e w') = (thrown e, w')
  finish batch (done w') = (ok tt, w')
  finish batch (refused e w') = reject_batch uuid K S o e batch w'

  attempts-Finishes :
      (retries : ℕ) (batch : List Pending) (clock : ℕ → ℕ) (i : ℕ) (w : World S.State)
      → IsSane uuid K S o V J w
      → Finishes batch w (attempts uuid K S o retries batch clock i w)
  unfolding attempts
  attempts-Finishes zero batch clock i w h =
      last (attempt uuid K S o batch (clock i) w) refl
        (attempt-AttemptIsAtomic uuid K S o V J decode-encode batch (clock i) w h)
    where
      last :
          (a : Attempted uuid K S o)
          → attempt uuid K S o batch (clock i) w ≡ a
          → AttemptIsAtomic uuid K S o V J decode-encode batch w a
          → Finishes batch w (attempts uuid K S o zero batch clock i w)
      last (escaped e w') q p =
          rw (q, attempts) (p.sane, inr (inr (record { error = e; escapes = refl; idles = p })))
      last (done w') q p = rw (q, attempts) (p.0, inl (refl, p.1))
      last (refused e w') q p = rw (q, attempts) (reject_batch-Finishes e batch w w' p)
  attempts-Finishes (suc retries) batch clock i w h =
      more (attempt uuid K S o batch (clock i) w) refl
        (attempt-AttemptIsAtomic uuid K S o V J decode-encode batch (clock i) w h)
        (attempts-Finishes retries batch clock (suc i))
    where
      more :
          (a : Attempted uuid K S o)
          → attempt uuid K S o batch (clock i) w ≡ a
          → AttemptIsAtomic uuid K S o V J decode-encode batch w a
          → ((u : World S.State)
              → IsSane uuid K S o V J u
              → Finishes batch u (attempts uuid K S o retries batch clock (suc i) u))
          → Finishes batch w (attempts uuid K S o (suc retries) batch clock i w)
      more (escaped e w') q p again =
          rw (q, attempts) (p.sane, inr (inr (record { error = e; escapes = refl; idles = p })))
      more (done w') q p again = rw (q, attempts) (p.0, inl (refl, p.1))
      more (refused e w') q p again = elim (Bool-cases (is_cas_conflict e)) [
        | inl c ↦ rw (q, attempts) (rw c (Finishes-from batch w w' _ p (again w' p.sane)))
        | inr c ↦ rw (q, attempts) (rw c (reject_batch-Finishes e batch w w' p))
      ]

  process-Finishes :
      (batch : List Pending) (clock : ℕ → ℕ) (w : World S.State)
      → IsSane uuid K S o V J w
      → (batch ≢ [])
      → Finishes batch w (process uuid K S o batch clock w)
  unfolding process drained
  process-Finishes [] clock w h some_batch = absurd (some_batch refl)
  process-Finishes (pm ∷ batch) clock w h some_batch =
      Finishes-from (pm ∷ batch) w (drained uuid K S o w) _
        (record {
          sane = record { valid = h.valid; coherent = h.coherent };
          extends = Extends-refl _;
          same_settled = refl;
        })
        (attempts-Finishes o.max_retries (pm ∷ batch) clock 0 (drained uuid K S o w)
          (record { valid = h.valid; coherent = h.coherent }))

  -- With a buffer that is not empty and a coherent cache, on a backend that keeps the contract of
  -- a journal, whatever other clients do, and if decoding gives back what was encoded: the batch
  -- is committed as one step onto the last stored content and its promises are resolved with the
  -- results of that step; or all of them are rejected with one error; or an error escapes and none
  -- of them is settled. Contents that were stored before stay in the journal, and the cache is
  -- coherent again, in each case.
  pub process_buffer-Finishes :
      (clock : ℕ → ℕ) (w : World S.State)
      → IsSane uuid K S o V J w
      → w.engine.buffer ≢ []
      → Finishes w.engine.buffer w (process_buffer uuid K S o clock w)
  unfolding process_buffer
  process_buffer-Finishes clock w h some_batch =
      process-Finishes w.engine.buffer clock w h some_batch
