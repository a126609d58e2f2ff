-- ===== src/Storage/Gcs/Torn.antt =====
-- A read of packages/storage/src/gcs.ts is two calls: what another client stores between them.
use osqueue.Base.{
  inl, inr, Bool-cases, ◌==◌, option_eq, number_eq, ℕ, ◌≡◌, ◌≢◌, refl, sym, ap, ◌∙◌, subst, String,
  List, [], ◌∷◌, ◌++◌, some, arith, length, length-append, get_elem?, get_elem?-split,
  get_elem?-Extends, Extends, Extends-trans,
}
use mathlib.Core.List.{append-nil}
use osqueue.Base.Decimal.{parse_int-decimal}
use osqueue.Types.{StorageVersion}
use osqueue.Types.Errors.{ok}
use osqueue.Storage.Gcs.{
  Call, returned, failed, CallFailure, Bucket, file, generation_version, store_failed,
  with_generation, downloaded, gcs_read, stored_generation, saved, gcs_write,
}
use osqueue.Storage.Gcs.Service.{GenerationView, KeepsGenerations}

module _ {ℓ} {A : Type ℓ} where
  same_last : (xs ys : List A) (x y : A) → xs ++ x ∷ [] ≡ ys ++ y ∷ [] → (xs ≡ ys) × (x ≡ y)
  same_last [] [] x y e = (refl, cc)
  same_last [] (b ∷ []) x y e = absurd (cc)
  same_last [] (b ∷ c ∷ ys) x y e = absurd (cc)
  same_last (a ∷ []) [] x y e = absurd (cc)
  same_last (a ∷ c ∷ xs) [] x y e = absurd (cc)
  same_last (a ∷ xs) (b ∷ ys) x y e = let (tails, lasts) = same_last xs ys x y (cc) in (cc, lasts)

  -- A list that goes on after `xs` goes on up to its last element.
  Extends-earlier :
      (xs more earlier : List A) (x : A)
      → xs ++ more ≡ earlier ++ x ∷ []
      → more ≢ []
      → Extends xs earlier
  Extends-earlier [] more earlier x e some_more = (earlier, refl)
  Extends-earlier (y ∷ []) more [] x e some_more = absurd (some_more (cc))
  Extends-earlier (y ∷ z ∷ xs) more [] x e some_more = absurd (cc)
  Extends-earlier (y ∷ xs) more (z ∷ earlier) x e some_more =
      let (rest, q) = Extends-earlier xs more earlier x (cc) some_more in (rest, cc)

  Extends-same_length : (xs ys : List A) → Extends xs ys → length ys ≡ length xs → ys ≡ xs
  Extends-same_length [] [] x e = refl
  Extends-same_length [] (y ∷ ys) x e = absurd (omega (arith, e))
  Extends-same_length (x ∷ xs) [] (more, q) e = absurd (cc)
  Extends-same_length (x ∷ xs) (y ∷ ys) (more, q) e =
      let tails = Extends-same_length xs ys (more, cc) (omega (arith, e)) in cc

store_failed_throws :
    (conflict what : String) (f : CallFailure) (v : StorageVersion)
    → store_failed conflict what f ≢ ok v
unfolding store_failed
store_failed_throws conflict what f v e = elim (Bool-cases (f.code == some 412)) [
  | inl c ↦ let bad = rw (c, store_failed) at e in absurd (cc)
  | inr c ↦ let bad = rw (c, store_failed) at e in absurd (cc)
]

module _ {Bytes : Type 0} (C : Bucket Bytes) (prefix key : String) (V : GenerationView C)
    (K : KeepsGenerations C (file C prefix key) V) (s : C.State) (valid : V.IsValid s) (x : Bytes)
    (downloads : (C.download (file C prefix key) s).0 ≡ returned x) (g : ℕ)
    (names : (C.get_metadata (file C prefix key) (C.download (file C prefix key) s).1).0
      ≡ returned g) where
  downloaded_lem :
      (r : Call Bytes × C.State)
      → r.0 ≡ returned x
      → downloaded C prefix key r
        ≡ with_generation C prefix x (C.get_metadata (file C prefix key) r.1)
  unfolding downloaded
  downloaded_lem (returned y, t) e = let same : y ≡ x = (cc) in rw same refl
  downloaded_lem (failed f, t) e = absurd (cc)

  with_generation_lem :
      (r : Call ℕ × C.State)
      → r.0 ≡ returned g
      → with_generation C prefix x r
        ≡ (ok (some (record { bytes = x; version = generation_version g })), r.1)
  unfolding with_generation
  with_generation_lem (returned n, t) e = let same : n ≡ g = (cc) in rw same refl
  with_generation_lem (failed f, t) e = absurd (cc)

  -- The service after the first call of the read, and after the second.
  abbrev pub between : C.State
  between = (C.download (file C prefix key) s).1

  abbrev pub after : C.State
  after = (C.get_metadata (file C prefix key) between).1

  -- The read returns what the first call found, with the generation that the second found.
  pub gcs_read_lem :
      gcs_read C prefix key s
      ≡ (ok (some (record { bytes = x; version = generation_version g })), after)
  unfolding gcs_read
  gcs_read_lem = downloaded_lem _ downloads ∙ with_generation_lem _ names

  -- If nothing is stored between the two calls of a read, the read returns the last content, and
  -- the version that it returns is that content's.
  pub gcs_read-whole :
      V.contents after ≡ V.contents between
      → (gcs_read C prefix key s
          ≡ (ok (some (record { bytes = x; version = generation_version g })), after))
        × ((earlier : List (ℕ × Bytes)) × (V.contents after ≡ earlier ++ (g, x) ∷ []))
  gcs_read-whole quiet =
      let (earlier, g', found) = K.download-returned s x valid downloads in
      let (earlier', y, positive, named) =
        K.metadata-returned between g (K.download-IsValid s valid) names in
      let (prefixes, lasts) =
        same_last earlier earlier' (g', x) (g, y) (sym found ∙ sym quiet ∙ named) in
      let bytes : y ≡ x = sym (ap (λ p. p.1) lasts) in
      (gcs_read_lem, (earlier', named ∙ ap (λ b. earlier' ++ (g, b) ∷ []) bytes))

  -- What another client stored between the calls, last, is named by the version, was not
  -- returned, and is overwritten.
  pub record Overwrites (bytes : Bytes) : Type 0 where
    pub earlier : List (ℕ × Bytes)
    pub unseen : Bytes
    pub new_generation : ℕ
    pub stored_since : Extends (V.contents between) earlier
    pub named : V.contents after ≡ earlier ++ (g, unseen) ∷ []
    pub overwritten :
        Extends
          (V.contents after ++ (new_generation, bytes) ∷ [])
          (V.contents (gcs_write C prefix key bytes (generation_version g) after).1)

  after-IsValid : V.IsValid after
  after-IsValid = K.metadata-IsValid between (K.download-IsValid s valid)

  stored_generation_state :
      (conflict what : String) (r : Call ℕ × C.State)
      → (stored_generation C prefix conflict what r).1 ≡ r.1
  unfolding stored_generation
  stored_generation_state conflict what (returned n, t) = refl
  stored_generation_state conflict what (failed f, t) = refl

  saved-ok :
      (conflict what : String) (r : Call (Unit {0}) × C.State) (v : StorageVersion)
      → (saved C prefix conflict what key r).0 ≡ ok v
      → (r.0 ≡ returned tt)
        × ((saved C prefix conflict what key r).1 ≡ (C.get_metadata (file C prefix key) r.1).1)
  unfolding saved store_failed
  saved-ok conflict what (returned tt, t) v e =
      (refl, stored_generation_state conflict what (C.get_metadata (file C prefix key) t))
  saved-ok conflict what (failed f, t) v e = absurd (store_failed_throws conflict what f v e)

  -- The content that was saved onto is the one that the version names.
  same_contents :
      (earlier before : List (ℕ × Bytes)) (unseen base : Bytes) (g' : ℕ) (bytes : Bytes)
      → V.contents after ≡ earlier ++ (g, unseen) ∷ []
      → Extends (V.contents after) (before ++ (g, base) ∷ [])
      → V.contents (C.save (file C prefix key) bytes (some g) after).1
        ≡ (before ++ (g, base) ∷ []) ++ (g', bytes) ∷ []
      → before ++ (g, base) ∷ [] ≡ V.contents after
  same_contents earlier before unseen base g' bytes named onto added =
      let t = (C.save (file C prefix key) bytes (some g) after).1 in
      let grown : Extends (before ++ (g, base) ∷ []) (V.contents t) = (_, added) in
      let here =
        get_elem?-Extends _ _ (length before) (g, base) grown
          (get_elem?-split before (g, base) []) in
      let there =
        get_elem?-Extends _ _ (length earlier) (g, unseen) (Extends-trans _ _ _ onto grown)
          (subst (λ l. get_elem? l (length earlier) ≡ some (g, unseen)) (sym named)
            (get_elem?-split earlier (g, unseen) [])) in
      let same =
        K.one_place t (length before) (length earlier) g base unseen
          (K.save-IsValid after bytes g after-IsValid) here there in
      Extends-same_length _ _ onto (
        omega (
          arith,
          length-append before ((g, base) ∷ []),
          ap length named,
          length-append earlier ((g, unseen) ∷ []),
          same,
        ))

  -- After a save the write asks for the metadata, and others may add contents before that.
  overwritten_by :
      (bytes : Bytes) (g' : ℕ) (t : C.State)
      → V.contents t ≡ V.contents after ++ (g', bytes) ∷ []
      → V.IsValid t
      → (u : C.State) → u ≡ (C.get_metadata (file C prefix key) t).1
      → Extends (V.contents after ++ (g', bytes) ∷ []) (V.contents u)
  overwritten_by bytes g' t e h u q = rw (q, sym e) (K.metadata_extends t h)

  gcs_write_lem :
      (bytes : Bytes)
      → gcs_write C prefix key bytes (generation_version g) after
        ≡ saved C prefix "GCS generation mismatch" "GCS write failed: " key
            (C.save (file C prefix key) bytes (some g) after)
  unfolding gcs_write
  gcs_write_lem bytes = rw (parse_int-decimal g) refl

  -- If another client stores something between the two calls of a read, the read returns what was
  -- there before with the version of the last content stored between, and a write with that
  -- version that goes through is one onto this content, which the read did not return.
  pub gcs_write-Overwrites :
      V.contents after ≢ V.contents between
      → (bytes : Bytes) (v : StorageVersion)
      → (gcs_write C prefix key bytes (generation_version g) after).0 ≡ ok v
      → (gcs_read C prefix key s
          ≡ (ok (some (record { bytes = x; version = generation_version g })), after))
        × Overwrites bytes
  gcs_write-Overwrites interrupted bytes v e =
      let f = file C prefix key in
      let (more, since) = K.metadata_extends between (K.download-IsValid s valid) in
      let (earlier, unseen, positive, named) =
        K.metadata-returned between g (K.download-IsValid s valid) names in
      let some_more : more ≢ [] = λ q. interrupted (since ∙ rw q (append-nil _)) in
      let r = C.save f bytes (some g) after in
      let done = sym (ap (λ p. p.0) (gcs_write_lem bytes)) ∙ e in
      let (saves, ends) = saved-ok _ _ r v done in
      let (before, base, g', onto, added) =
        K.save-returned after bytes g after-IsValid positive saves in
      let saved_valid = K.save-IsValid after bytes g after-IsValid in
      let same = same_contents earlier before unseen base g' bytes named onto added in
      (
        gcs_read_lem,
        record {
          earlier = earlier;
          unseen = unseen;
          new_generation = g';
          stored_since = Extends-earlier _ more earlier (g, unseen) (sym since ∙ named) some_more;
          named = named;
          overwritten =
              overwritten_by bytes g' r.1 (added ∙ ap (λ l. l ++ (g', bytes) ∷ []) same) saved_valid
                _ (ap (λ p. p.1) (gcs_write_lem bytes) ∙ ends);
        },
      )
