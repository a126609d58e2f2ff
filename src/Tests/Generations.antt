-- ===== src/Tests/Generations.antt =====
-- A bucket that numbers the contents of one object, with one write of another client that comes
-- in before the next request for the metadata.
use osqueue.Base.{
  ℕ, zero, suc, ◌<◌, ◌≡◌, refl, ap, ◌⊎◌, inl, inr, String, List, [], ◌∷◌, ◌++◌, Option, none, some,
  arith, if◌then◌else◌, ◌==◌, option_eq, number_eq, ==→≡, length, length-append, get_elem?, Extends,
  Extends-refl, Extends-append, Bool-cases,
}
use osqueue.Base.Decimal.{parse_int, decimal}
use osqueue.Types.Errors.{native_error, ok}
use osqueue.Storage.Gcs.{
  Call, returned, failed, CallFailure, Bucket, generation_version, gcs_read, gcs_write,
}
use osqueue.Storage.Gcs.Service.{GenerationView, KeepsGenerations}
use osqueue.Storage.Gcs.Torn.{Overwrites, gcs_write-Overwrites}

-- The contents, newest first, and what the other client is about to write.
abbrev Shelf : Type 0
Shelf = List String × Option String

abbrev numbered : List String → List (ℕ × String)
numbered [] = []
numbered (x ∷ xs) = let rest = numbered xs in rest ++ (suc (length xs), x) ∷ []

abbrev failure : ℕ → CallFailure
failure code = record { error = native_error "failed"; code = some code }

abbrev newest : List String → Call String
newest [] = failed (failure 404)
newest (x ∷ xs) = returned x

abbrev newest_number : List String → Call ℕ
newest_number [] = failed (failure 404)
newest_number (x ∷ xs) = returned (suc (length xs))

abbrev landed : Shelf → List String
landed (held, none) = held
landed (held, some y) = y ∷ held

abbrev put : String → Option ℕ → Shelf → Call (Unit {0}) × Shelf
put x g (held, other) =
    if g == some (length held)
    then (returned tt, (x ∷ held, other))
    else (failed (failure 412), (held, other))

abbrev shelf : Bucket String
shelf = record {
  State = Shelf;
  download = λ f s. (newest s.0, s);
  get_metadata = λ f s. (newest_number (landed s), (landed s, none));
  save = λ f x g s. put x g s;
}

abbrev shelf_view : GenerationView shelf
shelf_view = record { IsValid = λ s. Unit {0}; contents = λ s. numbered s.0 }

length-numbered : (xs : List String) → length (numbered xs) ≡ length xs
length-numbered [] = refl
length-numbered (x ∷ xs) =
    omega (arith, length-append (numbered xs) ((suc (length xs), x) ∷ []), length-numbered xs)

get_elem?-last :
    (ys : List (ℕ × String)) (z w : ℕ × String) (i : ℕ)
    → get_elem? (ys ++ z ∷ []) i ≡ some w
    → (get_elem? ys i ≡ some w) ⊎ ((i ≡ length ys) × (z ≡ w))
get_elem?-last [] z w zero e = inr (refl, cc)
get_elem?-last [] z w (suc i) e = absurd (cc)
get_elem?-last (y ∷ ys) z w zero e = inl e
get_elem?-last (y ∷ ys) z w (suc i) e = elim (get_elem?-last ys z w i e) [
  | inl found ↦ inl found
  | inr (at, same) ↦ inr (ap suc at, same)
]

place_of :
    (xs : List String) (i g : ℕ) (x : String) → get_elem? (numbered xs) i ≡ some (g, x) → g ≡ suc i
place_of [] i g x e = absurd (cc)
place_of (y ∷ ys) i g x e = elim (get_elem?-last (numbered ys) (suc (length ys), y) (g, x) i e) [
  | inl found ↦ place_of ys i g x found
  | inr (at, same) ↦
      let number : suc (length ys) ≡ g = ap (λ p. p.0) same in
      omega (arith, at, number, length-numbered ys)
]

landed-Extends : (s : Shelf) → Extends (numbered s.0) (numbered (landed s))
landed-Extends (held, none) = Extends-refl _
landed-Extends (held, some y) = Extends-append _ _

newest-last :
    (xs : List String) (x : String)
    → newest xs ≡ returned x
    → (earlier : List (ℕ × String)) × (g : ℕ) × (numbered xs ≡ earlier ++ (g, x) ∷ [])
newest-last [] x e = absurd (cc)
newest-last (y ∷ ys) x e = (numbered ys, suc (length ys), let same : y ≡ x = (cc) in rw same refl)

newest_number-last :
    (xs : List String) (g : ℕ)
    → newest_number xs ≡ returned g
    → (earlier : List (ℕ × String)) × (x : String) × (0 < g)
      × (numbered xs ≡ earlier ++ (g, x) ∷ [])
newest_number-last [] g e = absurd (cc)
newest_number-last (y ∷ ys) g e =
    let same : suc (length ys) ≡ g = (cc) in (numbered ys, y, omega (arith, same), rw same refl)

put-onto :
    (s : Shelf) (bytes : String) (g : ℕ)
    → 0 < g
    → (put bytes (some g) s).0 ≡ returned tt
    → (earlier : List (ℕ × String)) × (base : String) × (g' : ℕ) × Extends
        (numbered s.0)
        (earlier ++ (g, base) ∷ [])
      × (numbered (put bytes (some g) s).1.0 ≡ (earlier ++ (g, base) ∷ []) ++ (g', bytes) ∷ [])
put-onto (held, other) bytes g positive e = elim (Bool-cases (some g == some (length held))) [
  | inr c ↦ let bad = rw (c, put) at e in absurd (cc)
  | inl c ↦
      let same : g ≡ length held = (let p = ==→≡ (some g) (some (length held)) c in cc) in
      rw (c, put) (onto held other g positive same)
]
  where
    onto :
        (held : List String) (other : Option String) (g : ℕ)
        → 0 < g
        → g ≡ length held
        → (earlier : List (ℕ × String)) × (base : String) × (g' : ℕ) × Extends
            (numbered held)
            (earlier ++ (g, base) ∷ [])
          × (numbered (bytes ∷ held) ≡ (earlier ++ (g, base) ∷ []) ++ (g', bytes) ∷ [])
    onto [] other g positive same = absurd (omega (arith, same, positive))
    onto (y ∷ ys) other g positive same =
        (numbered ys, y, suc (suc (length ys)), rw same (Extends-refl _), rw same refl)

shelf-KeepsGenerations : KeepsGenerations shelf "q/queue.json" shelf_view
shelf-KeepsGenerations = record {
  one_place = λ s i j g x y h e e'. omega (arith, place_of s.0 i g x e, place_of s.0 j g y e');
  download-IsValid = λ s h. tt;
  metadata-IsValid = λ s h. tt;
  save-IsValid = λ s x g h. tt;
  metadata_extends = λ s h. landed-Extends s;
  download-returned = λ s x h e. newest-last s.0 x e;
  metadata-returned = λ s g h e. newest_number-last (landed s) g e;
  save-returned = λ s bytes g h positive e. put-onto s bytes g positive e;
}

-- "old" is read, "theirs" is stored before the metadata are asked for, and "mine" replaces it.
abbrev start : Shelf
start = ("old" ∷ [], some "theirs")

gcs_write-Overwrites_example :
    (gcs_read shelf "q/" "queue.json" start ≡ (
      ok (some (record { bytes = "old"; version = generation_version 2 })),
      ("theirs" ∷ "old" ∷ [], none),
    ))
    × Overwrites shelf "q/" "queue.json" shelf_view shelf-KeepsGenerations start tt "old" refl 2
        refl "mine"
unfolding gcs_write option_eq parse_int decimal number_eq
gcs_write-Overwrites_example =
    gcs_write-Overwrites shelf "q/" "queue.json" shelf_view shelf-KeepsGenerations start tt "old"
      refl 2 refl (λ e. cc) "mine" (generation_version 3) refl
