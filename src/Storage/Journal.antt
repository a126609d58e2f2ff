-- ===== src/Storage/Journal.antt =====
-- What the clients of a `StorageBackend` rely on for one key: the contents that the object has
-- had form a journal, oldest first, a version names a content, and a write goes through only on top
-- of the content that its version names. Other clients may add to the journal before a call.
use osqueue.Base.{ℕ, ◌≡◌, String, List, [], ◌∷◌, ◌++◌, some, get_elem?, Extends}
use osqueue.Types.{StorageVersion}
use osqueue.Types.Errors.{ok}
use osqueue.Storage.{StorageBackend, StorageReadResult}

module _ {Bytes : Type 0} where
  -- A write of `bytes` onto the last content, `base`, of a journal that extends `old`.
  pub record WrittenOnto (Names : List Bytes → StorageVersion → Bytes → Type 0)
      (old new : List Bytes) (bytes : Bytes) (expected version : StorageVersion) : Type 0 where
    pub earlier : List Bytes
    pub base : Bytes
    pub since : Extends old (earlier ++ base ∷ [])
    pub named : Names (earlier ++ base ∷ []) expected base
    pub added : new ≡ (earlier ++ base ∷ []) ++ bytes ∷ []
    pub returned : Names new version bytes

  -- How a state of a backend is read as the journal of one key.
  pub record JournalView (S : StorageBackend Bytes) : Type 1 where
    pub IsValid : S.State → Type 0
    pub journal : S.State → List Bytes
    pub Names : List Bytes → StorageVersion → Bytes → Type 0

  pub record IsJournaled (S : StorageBackend Bytes) (key : String) (V : JournalView S)
      : Type 0 where
    pub Names-unique :
        (j : List Bytes) (v : StorageVersion) (b c : Bytes) → V.Names j v b → V.Names j v c → b ≡ c
    pub Names-Extends :
        (old new : List Bytes) (v : StorageVersion) (b : Bytes)
        → Extends old new
        → V.Names old v b
        → V.Names new v b
    pub Names-held :
        (j : List Bytes) (v : StorageVersion) (b : Bytes)
        → V.Names j v b
        → (k : ℕ) × (get_elem? j k ≡ some b)
    pub read-IsValid : (s : S.State) → V.IsValid s → V.IsValid (S.read key s).1
    pub write-IsValid :
        (s : S.State) (bytes : Bytes) (v : StorageVersion)
        → V.IsValid s
        → V.IsValid (S.write key bytes v s).1
    pub create-IsValid :
        (s : S.State) (bytes : Bytes)
        → V.IsValid s
        → V.IsValid (S.create_if_not_exists key bytes s).1
    pub read_extends :
        (s : S.State) → V.IsValid s → Extends (V.journal s) (V.journal (S.read key s).1)
    pub write_extends :
        (s : S.State) (bytes : Bytes) (v : StorageVersion)
        → V.IsValid s
        → Extends (V.journal s) (V.journal (S.write key bytes v s).1)
    pub create_extends :
        (s : S.State) (bytes : Bytes)
        → V.IsValid s
        → Extends (V.journal s) (V.journal (S.create_if_not_exists key bytes s).1)
    pub read-some :
        (s : S.State) (r : StorageReadResult Bytes)
        → V.IsValid s
        → (S.read key s).0 ≡ ok (some r)
        → V.Names (V.journal (S.read key s).1) r.version r.bytes
    pub write-ok :
        (s : S.State) (bytes : Bytes) (v v' : StorageVersion)
        → V.IsValid s
        → (S.write key bytes v s).0 ≡ ok v'
        → WrittenOnto V.Names (V.journal s) (V.journal (S.write key bytes v s).1) bytes v v'
    pub create-ok :
        (s : S.State) (bytes : Bytes) (v : StorageVersion)
        → V.IsValid s
        → (S.create_if_not_exists key bytes s).0 ≡ ok v
        → (V.journal s ≡ [])
          × (V.journal (S.create_if_not_exists key bytes s).1 ≡ bytes ∷ [])
          × V.Names (bytes ∷ []) v bytes
