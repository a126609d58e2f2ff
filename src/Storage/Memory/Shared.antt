-- ===== src/Storage/Memory/Shared.antt =====
-- The memory backend (packages/storage/src/memory.ts) against the contract of `Journal`, where other clients
-- write to it between two calls.
use osqueue.Base.{
  ℕ, get_elem?, get_elem?-Extends, suc, ◌≡◌, refl, sym, ap, ◌∙◌, inl, inr, String, Option, none,
  some, List, [], ◌∷◌, ◌++◌, arith, Extends, Extends-nil, Extends-refl, Extends-trans,
  Extends-append, string_eq, Option-cases, subst,
}
use osqueue.Base.Decimal.{decimal-injective}
use osqueue.Base.Dict.{lookup}
use osqueue.Types.{StorageVersion}
use osqueue.Types.Errors.{Result, ok, thrown}
use osqueue.Storage.{StorageBackend, StorageReadResult}
use osqueue.Storage.Journal.{JournalView, IsJournaled}
use osqueue.Storage.Memory
use osqueue.Storage.Memory.Matches.{
  token, Numbers, Matches, Added, Writes, Onto, Founds, write-Matches, create-Matches,
  memory_unread, memory_read-some,
}
use osqueue.Storage.Memory.{
  MemoryBackend, StoredObject, version_token, maybe_delay, read_object, write_object, create_object,
}

-- The backend as one client sees it: `others` is what the other clients do before each further
-- call (nothing, or one attempt to store some content), and `journal` is what the object has held.
pub record Shared (Bytes : Type 0) : Type 0 where
  pub memory : MemoryBackend Bytes
  pub journal : List Bytes
  pub others : List (Option Bytes)

module _ {Bytes : Type 0} (key : String) where
  -- Another client reads the version and writes, or creates the object.
  unfoldable pub others_attempt :
      Bytes → MemoryBackend Bytes → Result StorageVersion × MemoryBackend Bytes
  others_attempt bytes m = elim (lookup key m.objects) [
    | none ↦ Memory.create_if_not_exists key bytes m
    | some object ↦ Memory.write key bytes (version_token object.version) m
  ]

  abbrev pub logged : List Bytes → Bytes → Result StorageVersion → List Bytes
  logged journal bytes (ok v) = journal ++ bytes ∷ []
  logged journal bytes (thrown e) = journal

  unfoldable pub after_others : Shared Bytes → List (Option Bytes) → Shared Bytes
  unfolding others_attempt logged
  after_others s [] = s
  after_others s (none ∷ rest) = record s { others = rest }
  after_others s (some bytes ∷ rest) =
      let (r, m) = others_attempt bytes s.memory in
      record { memory = m; journal = logged s.journal bytes r; others = rest }

  unfoldable pub let_others : Shared Bytes → Shared Bytes
  unfolding after_others
  let_others s = after_others s s.others

  unfoldable pub shared_read :
      Shared Bytes → Result (Option (StorageReadResult Bytes)) × Shared Bytes
  shared_read s =
      let t = let_others s in let (r, m) = Memory.read key t.memory in (r, record t { memory = m })

  unfoldable pub shared_write :
      Bytes → StorageVersion → Shared Bytes → Result StorageVersion × Shared Bytes
  shared_write bytes v s =
      let t = let_others s in
      let (r, m) = Memory.write key bytes v t.memory in
      (r, record t { memory = m; journal = logged t.journal bytes r })

  pub shared_create : Bytes → Shared Bytes → Result StorageVersion × Shared Bytes
  shared_create bytes s =
      let t = let_others s in
      let (r, m) = Memory.create_if_not_exists key bytes t.memory in
      (r, record t { memory = m; journal = logged t.journal bytes r })

  -- The calls of the key through the interface of a backend. Other keys are not touched here.
  abbrev pub shared_backend : StorageBackend Bytes
  shared_backend = record {
    State = Shared Bytes;
    read = λ k. shared_read;
    write = λ k. shared_write;
    create_if_not_exists = λ k. shared_create;
  }

  abbrev pub IsConsistent : Shared Bytes → Type 0
  IsConsistent s = Matches key s.memory s.journal

  -- The state and the journal after a write or a creation.
  abbrev Outcome :
      Bytes
      → (List Bytes → StorageVersion → Type 0)
      → List Bytes
      → Result StorageVersion × MemoryBackend Bytes
      → Type 0
  Outcome bytes P journal r =
      (Matches key r.1 (logged journal bytes r.0) × Extends journal (logged journal bytes r.0))
      × ((v : StorageVersion)
          → r.0 ≡ ok v
          → (logged journal bytes r.0 ≡ journal ++ bytes ∷ []) × P journal v)

  Added-Outcome :
      (bytes : Bytes) (P : List Bytes → StorageVersion → Type 0) (journal : List Bytes)
      (r : Result StorageVersion) (m : MemoryBackend Bytes)
      → Added key bytes P journal (r, m)
      → Outcome bytes P journal (r, m)
  unfolding logged
  Added-Outcome bytes P journal (thrown e) m a = absurd (let bad = a.success in cc)
  Added-Outcome bytes P journal (ok w) m a = (
    (a.matches, Extends-append journal (bytes ∷ [])),
    λ v e. (refl, subst (P journal) (let same = a.success in (cc)) a.placed),
  )

  Writes-Outcome :
      (bytes : Bytes) (P : List Bytes → StorageVersion → Type 0) (journal : List Bytes)
      (m : MemoryBackend Bytes) (r : Result StorageVersion × MemoryBackend Bytes)
      → Matches key m journal
      → Writes key bytes P journal m r
      → Outcome bytes P journal r
  unfolding logged
  Writes-Outcome bytes P journal m r h (inl (e, f)) =
      subst (Outcome bytes P journal) (sym f) ((h, Extends-refl journal), λ v bad. absurd (cc))
  Writes-Outcome bytes P journal m (r, m') h (inr a) = Added-Outcome bytes P journal r m' a

  others_attempt-Matches :
      (m : MemoryBackend Bytes) (journal : List Bytes) (bytes : Bytes)
      → Matches key m journal
      → let (r, m') = others_attempt bytes m in
        Matches key m' (logged journal bytes r) × Extends journal (logged journal bytes r)
  unfolding others_attempt
  others_attempt-Matches m journal bytes h = elim (Option-cases (lookup key m.objects)) [
    | inl e ↦
        rw (e, others_attempt)
          (Writes-Outcome bytes _ journal m _ h (create-Matches key m journal bytes h)).0
    | inr (object, e) ↦
        rw (e, others_attempt)
          (Writes-Outcome bytes _ journal m _ h
            (write-Matches key m journal bytes (version_token object.version) h)).0
  ]

  after_others-IsConsistent :
      (s : Shared Bytes) (others : List (Option Bytes))
      → IsConsistent s
      → IsConsistent (after_others s others) × Extends s.journal (after_others s others).journal
  unfolding after_others
  after_others-IsConsistent s [] h = (h, Extends-refl s.journal)
  after_others-IsConsistent s (none ∷ rest) h = (h, Extends-refl s.journal)
  after_others-IsConsistent s (some bytes ∷ rest) h =
      others_attempt-Matches s.memory s.journal bytes h

  let_others-IsConsistent :
      (s : Shared Bytes)
      → IsConsistent s
      → IsConsistent (let_others s) × Extends s.journal (let_others s).journal
  unfolding let_others
  let_others-IsConsistent s h = after_others-IsConsistent s s.others h

  shared_write-Outcome :
      (s : Shared Bytes) (bytes : Bytes) (v : StorageVersion)
      → IsConsistent s
      → Outcome bytes
          (Onto key bytes v)
          (let_others s).journal
          (Memory.write key bytes v (let_others s).memory)
  shared_write-Outcome s bytes v h =
      let h' = (let_others-IsConsistent s h).0 in
      Writes-Outcome bytes _ _ _ _ h' (write-Matches key _ _ bytes v h')

  shared_create-Outcome :
      (s : Shared Bytes) (bytes : Bytes)
      → IsConsistent s
      → Outcome bytes
          (Founds key)
          (let_others s).journal
          (Memory.create_if_not_exists key bytes (let_others s).memory)
  shared_create-Outcome s bytes h =
      let h' = (let_others-IsConsistent s h).0 in
      Writes-Outcome bytes _ _ _ _ h' (create-Matches key _ _ bytes h')

  Numbers-unique :
      (journal : List Bytes) (b c : Bytes) (i j : ℕ)
      → token i ≡ token j
      → get_elem? journal i ≡ some b
      → get_elem? journal j ≡ some c
      → b ≡ c
  Numbers-unique journal b c i j e at at' =
      let same : i ≡ j =
        omega (arith, decimal-injective (suc i) (suc j) (ap (λ (v : StorageVersion). v.token) e)) in
      (cc)

  abbrev pub shared_view : JournalView shared_backend
  shared_view = record { IsValid = IsConsistent; journal = λ s. s.journal; Names = Numbers }

  -- The memory backend with other clients at work meets the contract: the contents of the object
  -- form a journal, and a write succeeds only on top of the content whose token it was given.
  pub shared-IsJournaled : IsJournaled shared_backend key shared_view
  unfolding shared_read shared_write shared_create let_others
  shared-IsJournaled = record {
    Names-unique =
        λ journal v b c (i, e, at) (j, e', at'). Numbers-unique journal b c i j (sym e ∙ e') at at';
    Names-Extends = λ old new v b x (k, e, at). (k, e, get_elem?-Extends old new k b x at);
    Names-held = λ journal v b (k, e, at). (k, at);
    read-IsValid = λ s h.
        subst (λ m. Matches key m (let_others s).journal)
          (sym (memory_unread key (let_others s).memory)) (let_others-IsConsistent s h).0;
    write-IsValid = λ s bytes v h. (shared_write-Outcome s bytes v h).0.0;
    create-IsValid = λ s bytes h. (shared_create-Outcome s bytes h).0.0;
    read_extends = λ s h. (let_others-IsConsistent s h).1;
    write_extends = λ s bytes v h.
        Extends-trans _ _ _ (let_others-IsConsistent s h).1 (shared_write-Outcome s bytes v h).0.1;
    create_extends = λ s bytes h.
        Extends-trans _ _ _ (let_others-IsConsistent s h).1 (shared_create-Outcome s bytes h).0.1;
    read-some =
        λ s r h e. memory_read-some key (let_others s).memory _ r (let_others-IsConsistent s h).0 e;
    write-ok = λ s bytes v v' h e.
        let (added, onto) = (shared_write-Outcome s bytes v h).1 v' e in
        record {
          earlier = onto.earlier;
          base = onto.base;
          since = Extends-trans _ _ _ (let_others-IsConsistent s h).1 onto.since;
          named = onto.named;
          added = added ∙ onto.added;
          returned = subst (λ j. Numbers j v' bytes) (sym added) onto.returned;
        };
    create-ok = λ s bytes v h e.
        let (added, first) = (shared_create-Outcome s bytes h).1 v e in
        (
          Extends-nil _ _ (let_others-IsConsistent s h).1 first.0,
          added ∙ ap (λ j. j ++ bytes ∷ []) first.0,
          (0, first.1, refl),
        );
  }
