-- ===== src/Engine/Commit/Contended.antt =====
-- The memory backend (packages/storage/src/memory.ts), shared with other clients, keeps what
-- `Contention` promises.
use osqueue.Base.{
  ℕ, suc, ◌+◌, ◌≤◌, ◌<◌, ◌≡◌, refl, sym, ap, subst, ◌∙◌, ◌⊎◌, inl, inr, String, true, false, List,
  [], ◌∷◌, Option, none, some, arith, All, Bool-cases, ◌==◌, string_eq, ==_refl,
}
use osqueue.Base.Decimal.{decimal}
use osqueue.Base.Dict.{lookup, lookup-insert}
use osqueue.Types.{QueueState, StorageVersion}
use osqueue.Types.Errors.{Thrown, Result, ok, thrown, is_cas_conflict}
use osqueue.Storage.{StorageReadResult}
use osqueue.Storage.Memory.{MemoryBackend, StoredObject, version_token}
use osqueue.Storage.Memory.Shared.{
  Shared, shared_backend, others_attempt, after_others, let_others, shared_read, shared_write,
  logged,
}
use osqueue.Engine.{Codec}
use osqueue.Engine.Commit.Contention.{Contention}
use osqueue.Storage.Memory.Found.{
  write-write_object, placed, write_object-current, read-read_object, write_object-same, mismatch,
  write_object-differs,
}

module _ (K : Codec) (key : String) where
  abbrev Decodes : K.Bytes → Type 0
  Decodes bytes = (state : QueueState) × (K.decode bytes ≡ ok state)

  abbrev DecodesIfSome : Option K.Bytes → Type 0
  DecodesIfSome none = Unit {0}
  DecodesIfSome (some bytes) = Decodes bytes

  -- The memory does not fail, and the object holds a state of the queue.
  abbrev pub IsUp : MemoryBackend K.Bytes → Type 0
  IsUp m =
      (m.fail_with ≡ none)
      × (object : StoredObject K.Bytes) × (lookup key m.objects ≡ some object)
      × Decodes object.bytes

  -- And the others write states of the queue.
  abbrev pub Serves : Shared K.Bytes → Type 0
  Serves s = IsUp s.memory × All DecodesIfSome s.others

  -- How many times the others are still to write.
  abbrev pub writes_left : List (Option K.Bytes) → ℕ
  writes_left [] = 0
  writes_left (none ∷ rest) = writes_left rest
  writes_left (some bytes ∷ rest) = suc (writes_left rest)

  abbrev pub budget : Shared K.Bytes → ℕ
  budget s = writes_left s.others

  abbrev pub Current : StorageVersion → Shared K.Bytes → Type 0
  Current v s =
      (object : StoredObject K.Bytes)
      → lookup key s.memory.objects ≡ some object
      → v ≡ version_token object.version

  placed-IsUp :
      (bytes : K.Bytes) (object : StoredObject K.Bytes) (m : MemoryBackend K.Bytes)
      → m.fail_with ≡ none
      → Decodes bytes
      → IsUp (placed key bytes object m)
  unfolding placed
  placed-IsUp bytes object m up d =
      let new : StoredObject K.Bytes = record { bytes = bytes; version = object.version + 1 } in
      (up, new, lookup-insert key key new m.objects ∙ rw (==_refl key) refl, d)

  others_attempt-IsUp :
      (bytes : K.Bytes) (m : MemoryBackend K.Bytes)
      → IsUp m
      → Decodes bytes
      → IsUp (others_attempt key bytes m).1
  unfolding others_attempt
  others_attempt-IsUp bytes m (up, object, held, d) d' =
      let same =
        write-write_object key bytes (version_token object.version) m object up held
        ∙ write_object-current key bytes m object in
      rw (held, others_attempt)
        (subst (λ x. IsUp x.1) (sym same) (placed-IsUp bytes object m up d'))

  -- What the others' next step leaves.
  abbrev Continues : Shared K.Bytes → Shared K.Bytes → Type 0
  Continues s t = Serves t × (budget t ≤ budget s) × ((t.memory ≡ s.memory) ⊎ (budget t < budget s))

  after_others-Continues :
      (s : Shared K.Bytes) (others : List (Option K.Bytes))
      → s.others ≡ others
      → Serves s
      → Continues s (after_others key s others)
  unfolding after_others
  after_others-Continues s [] e h = (h, omega arith, inl refl)
  after_others-Continues s (none ∷ rest) e (up, all) =
      let fits : writes_left rest ≤ budget s = rw e (omega arith) in
      ((up, (subst (All DecodesIfSome) e all).1), fits, inl refl)
  after_others-Continues s (some bytes ∷ rest) e (up, all) =
      let (d, later) = subst (All DecodesIfSome) e all in
      let fewer : writes_left rest < budget s = rw e (omega arith) in
      ((others_attempt-IsUp bytes s.memory up d, later), omega (arith, fewer), inr fewer)

  let_others-Continues : (s : Shared K.Bytes) → Serves s → Continues s (let_others key s)
  unfolding let_others
  let_others-Continues s h = after_others-Continues s s.others refl h

  same_object :
      (m : MemoryBackend K.Bytes) (a b : StoredObject K.Bytes)
      → lookup key m.objects ≡ some a
      → lookup key m.objects ≡ some b
      → a ≡ b
  same_object m a b p q = let e : some a ≡ some b = sym p ∙ q in cc

  abbrev pub Finds :
      Shared K.Bytes → Result (Option (StorageReadResult K.Bytes)) × Shared K.Bytes → Type 0
  Finds s (r, s') =
      (found : StorageReadResult K.Bytes) × (state : QueueState) × (r ≡ ok (some found))
      × (K.decode found.bytes ≡ ok state)
      × Serves s'
      × Current found.version s'
      × (budget s' ≤ budget s)

  pub shared_read-Finds : (s : Shared K.Bytes) → Serves s → Finds s (shared_read key s)
  unfolding shared_read
  shared_read-Finds s h =
      let t = let_others key s in
      let (((up, object, held, (state, d)), all), le, same) = let_others-Continues s h in
      let found : StorageReadResult K.Bytes = record {
        bytes = object.bytes;
        version = version_token object.version;
      } in
      let current : Current found.version t = λ o p.
        ap (λ (x : StoredObject K.Bytes). version_token x.version)
          (same_object t.memory object o held p) in
      subst (λ x. Finds s (x.0, record t { memory = x.1 }))
        (sym (read-read_object key t.memory object up held))
        (found, state, refl, d, ((up, object, held, (state, d)), all), current, le)

  abbrev pub Meets :
      StorageVersion → Shared K.Bytes → Result StorageVersion × Shared K.Bytes → Type 0
  Meets v s (r, s') =
      ((v' : StorageVersion) × (r ≡ ok v'))
      ⊎ (e : Thrown) × (r ≡ thrown e)
        × (is_cas_conflict e ≡ true)
        × Serves s'
        × (budget s' ≤ budget s)
        × (Current v s → budget s' < budget s)

  -- A version that differs from the object's was not current, or the others have written since.
  outdated :
      (v : StorageVersion) (s t : Shared K.Bytes) (object : StoredObject K.Bytes)
      → (decimal object.version == v.token) ≡ false
      → lookup key t.memory.objects ≡ some object
      → (t.memory ≡ s.memory) ⊎ (budget t < budget s)
      → Current v s
      → budget t < budget s
  outdated v s t object differ held (inr lt) current = lt
  outdated v s t object differ held (inl same) current =
      let named =
        current object
          (subst (λ (m : MemoryBackend K.Bytes). lookup key m.objects ≡ some object) same held) in
      let equal : (decimal object.version == v.token) ≡ true =
        rw named (==_refl (decimal object.version)) in
      absurd (let bad : true ≡ false = sym equal ∙ differ in cc)

  pub shared_write-Meets :
      (s : Shared K.Bytes) (bytes : K.Bytes) (v : StorageVersion)
      → Serves s
      → Meets v s (shared_write key bytes v s)
  unfolding shared_write mismatch
  shared_write-Meets s bytes v h =
      let t = let_others key s in
      let ((up, all), le, same) = let_others-Continues s h in
      let (running, object, held, d) = up in
      let written = write-write_object key bytes v t.memory object running held in
      let after : Result StorageVersion × MemoryBackend K.Bytes
          → Result StorageVersion × Shared K.Bytes =
        λ x. (x.0, record t { memory = x.1; journal = logged key t.journal bytes x.0 }) in
      elim (Bool-cases (decimal object.version == v.token)) [
        | inl e ↦ inl (
          version_token (object.version + 1),
          ap (λ x. x.0) (written ∙ write_object-same key bytes v t.memory object e),
        )
        | inr e ↦
            subst (λ x. Meets v s (after x))
              (sym (written ∙ write_object-differs key bytes v t.memory object e))
              (inr
                (mismatch v object, refl, refl, (up, all), le, outdated v s t object e held same))
      ]

  -- The memory backend with other clients, while it does not fail and holds states of the queue, keeps
  -- what `Contention` promises; the budget is the number of their writes that are to come.
  abbrev pub shared_contention : Contention K (shared_backend key) key
  shared_contention = record {
    Serves = Serves;
    budget = budget;
    Current = Current;
    read-finds = shared_read-Finds;
    write-meets = λ s bytes v h. shared_write-Meets s bytes v h;
  }
