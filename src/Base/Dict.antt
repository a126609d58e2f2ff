-- ===== src/Base/Dict.antt =====
-- A JavaScript `Map` with text keys, as an association list in insertion order.
use osqueue.Base.Tests.{if◌then◌else◌}
use osqueue.Base.Equality.{◌==◌, string_eq, ==_refl}
use Prim.Native.String.{String}
use mathlib.Core.Path.{◌≡◌, refl}
use mathlib.Core.Option.{Option, none, some}
use mathlib.Core.List.{List, [], ◌∷◌, ◌++◌}
use Prim.Native.Nat.{ℕ, ◌+◌, ◌<◌, ◌≤◌}
use mathlib.Core.Bool.{false}
use native.Mathlib.Omega.{arith}

abbrev pub Dict {ℓ} : Type ℓ → Type ℓ
Dict V = List (String × V)

module _ {ℓ} {V : Type ℓ} where
  unfoldable pub lookup : String → Dict V → Option V
  lookup k [] = none
  lookup k ((j, v) ∷ d) = if k == j then some v else lookup k d

  unfoldable pub insert : String → V → Dict V → Dict V
  insert k v [] = (k, v) ∷ []
  insert k v ((j, w) ∷ d) = if k == j then (k, v) ∷ d else (j, w) ∷ insert k v d

  unfoldable pub erase : String → Dict V → Dict V
  erase k [] = []
  erase k ((j, w) ∷ d) = let rest = erase k d in if k == j then rest else (j, w) ∷ rest

  pub lookup-insert :
      (j k : String) (v : V) (d : Dict V)
      → lookup j (insert k v d) ≡ (if j == k then some v else lookup j d)
  unfolding insert lookup
  lookup-insert j k v [] = refl
  lookup-insert j k v (_ ∷ d) = ground (arith, lookup-insert j k v d)

  pub lookup-erase :
      (j k : String) (d : Dict V) → lookup j (erase k d) ≡ (if j == k then none else lookup j d)
  unfolding erase lookup
  lookup-erase j k [] = ground arith
  lookup-erase j k (_ ∷ d) = ground (arith, lookup-erase j k d)

  -- How many entries have a key.
  abbrev pub count : String → Dict V → ℕ
  count k [] = 0
  count k ((j, v) ∷ d) = (if k == j then 1 else 0) + count k d

  pub count-erase :
      (j k : String) (d : Dict V) → count j (erase k d) ≡ (if j == k then 0 else count j d)
  unfolding erase
  count-erase j k [] = ground arith
  count-erase j k (_ ∷ d) = ground (arith, count-erase j k d)

  -- A key without an entry gets its entry, and the others keep theirs.
  pub count-insert :
      (j k : String) (v : V) (d : Dict V)
      → count k d ≡ 0
      → count j (insert k v d) ≡ (if j == k then 1 else 0) + count j d
  unfolding insert
  count-insert j k v [] h = refl
  count-insert j k v ((i, w) ∷ d) h =
      ground (arith, count-insert j k v d (omega (arith, h)), ==_refl k)

  count-insert_other :
      (j k : String) (v : V) (d : Dict V) → (j == k) ≡ false → count j (insert k v d) ≡ count j d
  unfolding insert
  count-insert_other j k v [] h = ground arith
  count-insert_other j k v ((i, w) ∷ d) h = ground (arith, count-insert_other j k v d h)

  -- Setting a key does not give any key a second entry.
  pub count-insert_le :
      (j k : String) (v : V) (d : Dict V) → count j d ≤ 1 → count j (insert k v d) ≤ 1
  unfolding insert
  count-insert_le j k v [] h = ground arith
  count-insert_le j k v ((i, w) ∷ d) h =
      ground (arith, count-insert_le j k v d (omega (arith, h)), count-insert_other j k v d)

  pub count-append : (k : String) (d e : Dict V) → count k (d ++ e) ≡ count k d + count k e
  count-append k [] e = omega arith
  count-append k ((j, v) ∷ d) e = omega (arith, count-append k d e)

  pub count_of_lookup : (k : String) (v : V) (d : Dict V) → lookup k d ≡ some v → 0 < count k d
  unfolding lookup
  count_of_lookup k v [] h = absurd (cc)
  count_of_lookup k v ((j, w) ∷ d) h = ground (arith, count_of_lookup k v d)

  -- Where a key is new, erasing it undoes its insertion.
  pub erase-insert : (k : String) (v : V) (d : Dict V) → count k d ≡ 0 → erase k (insert k v d) ≡ d
  unfolding erase insert
  erase-insert k v [] h = rw (==_refl k) refl
  erase-insert k v ((j, w) ∷ d) h = ground (arith, erase-insert k v d (omega (arith, h)), ==_refl k)

  pub lookup-append : (k : String) (d e : Dict V) → count k d ≡ 0 → lookup k (d ++ e) ≡ lookup k e
  unfolding lookup
  lookup-append k [] e h = refl
  lookup-append k ((j, v) ∷ d) e h = ground (arith, lookup-append k d e (omega (arith, h)))
