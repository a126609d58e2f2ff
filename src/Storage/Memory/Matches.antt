-- ===== src/Storage/Memory/Matches.antt =====
-- packages/storage/src/memory.ts: the object of a key holds the last content of its journal.
use osqueue.Base.{
  ℕ, suc, ◌+◌, ◌≡◌, refl, sym, ap, ◌∙◌, ◌⊎◌, inl, inr, String, none, some, List, [], ◌∷◌, ◌++◌,
  arith, length, length-append, get_elem?, get_elem?-split, Extends-refl, ◌==◌, ==_refl, ==→≡,
  string_eq, Bool-cases, subst,
}
use osqueue.Base.Decimal.{decimal}
use osqueue.Base.Dict.{lookup, insert, lookup-insert}
use osqueue.Types.{StorageVersion}
use osqueue.Types.Errors.{Result, ok, thrown, Thrown}
use osqueue.Storage.{StorageReadResult}
use osqueue.Storage.Journal.{WrittenOnto}
use osqueue.Storage.Memory
use osqueue.Storage.Memory.{
  MemoryBackend, StoredObject, version_token, maybe_delay, read_object, write_object, create_object,
}

abbrev pub token : ℕ → StorageVersion
token k = version_token (suc k)

-- A version names the content at its place.
abbrev pub Numbers : {Bytes : Type 0} → List Bytes → StorageVersion → Bytes → Type 0
Numbers journal v bytes = (k : ℕ) × (v ≡ token k) × (get_elem? journal k ≡ some bytes)

delay-cases : (r : Result (Unit {0})) → (r ≡ ok tt) ⊎ ((e : Thrown) × (r ≡ thrown e))
delay-cases (ok tt) = inl refl
delay-cases (thrown e) = inr (e, refl)

module _ {Bytes : Type 0} (key : String) where
  abbrev object_at : Bytes → List Bytes → StoredObject Bytes
  object_at base earlier = record { bytes = base; version = suc (length earlier) }

  -- The object holds the last content of the journal, and its version counts the contents.
  abbrev pub Matches : MemoryBackend Bytes → List Bytes → Type 0
  Matches m journal =
      (journal ≡ []) × (lookup key m.objects ≡ none)
      ⊎ (earlier : List Bytes) × (base : Bytes) × (journal ≡ earlier ++ base ∷ [])
        × (lookup key m.objects ≡ some (object_at base earlier))

  -- What a write or a creation comes to: it fails and changes nothing, or adds to the journal.
  pub record Added (bytes : Bytes) (P : List Bytes → StorageVersion → Type 0) (journal : List Bytes)
      (r : Result StorageVersion × MemoryBackend Bytes) : Type 0 where
    pub version : StorageVersion
    pub success : r.0 ≡ ok version
    pub matches : Matches r.1 (journal ++ bytes ∷ [])
    pub placed : P journal version

  abbrev pub Writes :
      Bytes
      → (List Bytes → StorageVersion → Type 0)
      → List Bytes
      → MemoryBackend Bytes
      → Result StorageVersion × MemoryBackend Bytes
      → Type 0
  Writes bytes P journal m r = ((e : Thrown) × (r ≡ (thrown e, m))) ⊎ Added bytes P journal r

  Matches-insert :
      (m : MemoryBackend Bytes) (earlier : List Bytes) (bytes : Bytes) (n : ℕ)
      → n ≡ suc (length earlier)
      → Matches
          (record m { objects = insert key (record { bytes = bytes; version = n }) m.objects })
          (earlier ++ bytes ∷ [])
  Matches-insert m earlier bytes n e = inr (
    earlier,
    bytes,
    refl,
    lookup-insert key key (record { bytes = bytes; version = n }) m.objects
        ∙ rw (==_refl key, e) refl,
  )

  abbrev pub Onto : Bytes → StorageVersion → List Bytes → StorageVersion → Type 0
  Onto bytes expected journal version =
      WrittenOnto Numbers journal (journal ++ bytes ∷ []) bytes expected version

  write_object-Matches :
      (m : MemoryBackend Bytes) (journal : List Bytes) (bytes : Bytes) (v : StorageVersion)
      → Matches m journal
      → Writes bytes (Onto bytes v) journal m (write_object key bytes v m (lookup key m.objects))
  unfolding write_object
  write_object-Matches m journal bytes v (inl (e, l)) = rw l (inl (_, refl))
  write_object-Matches m journal bytes v (inr (earlier, base, e, l)) =
      rw (l, e)
        (elim (Bool-cases (decimal (suc (length earlier)) == v.token)) [
          | inr differ ↦ rw differ (inl (_, refl))
          | inl same ↦ rw same (
              inr (record {
                version = version_token (suc (length earlier) + 1);
                success = refl;
                matches =
                    Matches-insert m (earlier ++ base ∷ []) bytes _
                      (omega (arith, length-append earlier (base ∷ [])));
                placed = record {
                  earlier = earlier;
                  base = base;
                  since = Extends-refl (earlier ++ base ∷ []);
                  named = (
                    length earlier,
                    ap (λ t. let w : StorageVersion = record { token = t } in w)
                        (sym (==→≡ _ v.token same)),
                    get_elem?-split earlier base [],
                  );
                  added = refl;
                  returned = (
                    length (earlier ++ base ∷ []),
                    ap version_token (omega (arith, length-append earlier (base ∷ []))),
                    get_elem?-split (earlier ++ base ∷ []) bytes [],
                  );
                };
              }))
        ])

  pub write-Matches :
      (m : MemoryBackend Bytes) (journal : List Bytes) (bytes : Bytes) (v : StorageVersion)
      → Matches m journal
      → Writes bytes (Onto bytes v) journal m (Memory.write key bytes v m)
  unfolding Memory.write
  write-Matches m journal bytes v h = elim (delay-cases (maybe_delay m.fail_with)) [
    | inr (e, d) ↦ rw (d, Memory.write) (inl (e, refl))
    | inl d ↦ rw (d, Memory.write) (write_object-Matches m journal bytes v h)
  ]

  abbrev pub Founds : List Bytes → StorageVersion → Type 0
  Founds journal version = (journal ≡ []) × (version ≡ token 0)

  create_object-Matches :
      (m : MemoryBackend Bytes) (journal : List Bytes) (bytes : Bytes)
      → Matches m journal
      → Writes bytes Founds journal m (create_object key bytes m (lookup key m.objects))
  unfolding create_object
  create_object-Matches m journal bytes (inr (earlier, base, e, l)) = rw l (inl (_, refl))
  create_object-Matches m journal bytes (inl (e, l)) =
      rw (l, e)
        (inr (record {
          version = token 0;
          success = refl;
          matches = Matches-insert m [] bytes 1 refl;
          placed = (refl, refl);
        }))

  pub create-Matches :
      (m : MemoryBackend Bytes) (journal : List Bytes) (bytes : Bytes)
      → Matches m journal
      → Writes bytes Founds journal m (Memory.create_if_not_exists key bytes m)
  unfolding Memory.create_if_not_exists
  create-Matches m journal bytes h = elim (delay-cases (maybe_delay m.fail_with)) [
    | inr (e, d) ↦ rw (d, Memory.create_if_not_exists) (inl (e, refl))
    | inl d ↦ rw (d, Memory.create_if_not_exists) (create_object-Matches m journal bytes h)
  ]

  pub memory_unread : (m : MemoryBackend Bytes) → (Memory.read key m).1 ≡ m
  unfolding Memory.read
  memory_unread m = elim (delay-cases (maybe_delay m.fail_with)) [
    | inr (e, d) ↦ rw (d, Memory.read)
    | inl d ↦ rw (d, Memory.read)
  ]

  memory_read-lookup :
      (m : MemoryBackend Bytes) (r : StorageReadResult Bytes)
      → (Memory.read key m).0 ≡ ok (some r)
      → read_object (lookup key m.objects) ≡ some r
  unfolding Memory.read
  memory_read-lookup m r e = elim (delay-cases (maybe_delay m.fail_with)) [
    | inr (err, d) ↦ let bad = rw (d, Memory.read) at e in absurd (cc)
    | inl d ↦ let found = rw (d, Memory.read) at e in (cc)
  ]

  pub memory_read-some :
      (m : MemoryBackend Bytes) (journal : List Bytes) (r : StorageReadResult Bytes)
      → Matches m journal
      → (Memory.read key m).0 ≡ ok (some r)
      → (k : ℕ) × (r.version ≡ token k) × (get_elem? journal k ≡ some r.bytes)
  unfolding read_object
  memory_read-some m journal r (inl (_, l)) e =
      let found = rw (l, read_object) at (memory_read-lookup m r e) in absurd (cc)
  memory_read-some m journal r (inr (earlier, base, j, l)) e =
      let found = rw (l, read_object) at (memory_read-lookup m r e) in
      (
        length earlier,
        ground arith,
        subst (λ l. get_elem? l (length earlier) ≡ some r.bytes) (sym j)
            (get_elem?-split earlier base [] ∙ ground arith),
      )
