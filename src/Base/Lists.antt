-- ===== src/Base/Lists.antt =====
-- Arrays: length, access and update by index, `findIndex`, and what a found index splits off.
use Prim.Native.Nat.{ℕ, zero, suc, ◌+◌, ◌<◌}
use mathlib.Core.Path.{◌≡◌, refl, ap, sym, ◌∙◌}
use mathlib.Core.Logic.{◌⊎◌, inl, inr}
use mathlib.Core.Bool.{Bool, true, false}
use mathlib.Core.Option.{Option, none, some}
use mathlib.Core.List.{List, [], ◌∷◌, ◌++◌, map, append-nil, append_assoc}
use native.Mathlib.Omega.{arith}
use osqueue.Base.Tests.{if◌then◌else◌, Bool-cases, nat_eq}

-- A predicate by recursion computes to tuples, which the tactics read and build.
abbrev pub All {ℓ κ} : {A : Type ℓ} → (A → Type κ) → List A → Type κ
All P [] = Unit
All P (x ∷ xs) = P x × All P xs

module _ {ℓ} {A : Type ℓ} where
  abbrev pub length : List A → ℕ
  length [] = 0
  length (x ∷ xs) = suc (length xs)

  abbrev pub get_elem? : List A → ℕ → Option A
  get_elem? [] i = none
  get_elem? (x ∷ xs) zero = some x
  get_elem? (x ∷ xs) (suc i) = get_elem? xs i

  -- `array[i] = v`; a write out of bounds does not occur, and changes nothing here.
  abbrev pub set : List A → ℕ → A → List A
  set [] i v = []
  set (x ∷ xs) zero v = v ∷ xs
  set (x ∷ xs) (suc i) v = x ∷ set xs i v

  pub length-append : (xs ys : List A) → length (xs ++ ys) ≡ length xs + length ys
  length-append [] ys = omega arith
  length-append (x ∷ xs) ys = omega (arith, length-append xs ys)

  -- `array.filter(test)`
  abbrev pub keep : (A → Bool) → List A → List A
  keep test [] = []
  keep test (x ∷ xs) = let rest = keep test xs in if test x then x ∷ rest else rest

  -- `array.filter((_, i) => i !== idx)`, where the list begins at the index `at`.
  abbrev pub drop_index : ℕ → ℕ → List A → List A
  drop_index at idx [] = []
  drop_index at idx (x ∷ xs) =
      let rest = drop_index (suc at) idx xs in if nat_eq at idx then rest else x ∷ rest

  -- `array.findIndex(test)`, with `none` for -1, where the list begins at the index `at`.
  abbrev pub find_index_from : ℕ → (A → Bool) → List A → Option ℕ
  find_index_from at test [] = none
  find_index_from at test (x ∷ xs) = if test x then some at else find_index_from (suc at) test xs

  abbrev pub find_index : (A → Bool) → List A → Option ℕ
  find_index = find_index_from 0

  -- The first element that passes, with what stands before and behind it.
  pub record First (test : A → Bool) (xs : List A) : Type ℓ where
    pub before : List A
    pub found : A
    pub behind : List A
    pub split : xs ≡ before ++ found ∷ behind
    pub misses : All (λ x. test x ≡ false) before
    pub hit : test found ≡ true

  module _ (test : A → Bool) where
    -- What the index that `find_index_from` returns stands for.
    abbrev Located : ℕ → List A → Type ℓ
    Located at xs =
        (find_index_from at test xs ≡ none) × (All (λ x. test x ≡ false) xs)
        ⊎ (f : First test xs) × (find_index_from at test xs ≡ some (at + length f.before))

    cons_First : (x : A) (xs : List A) → test x ≡ false → First test xs → First test (x ∷ xs)
    cons_First x xs miss f = record {
      before = x ∷ f.before;
      found = f.found;
      behind = f.behind;
      split = ap (◌∷◌ x) f.split;
      misses = (miss, f.misses);
      hit = f.hit;
    }

    locate_from : (at : ℕ) (xs : List A) → Located at xs
    unfolding cons_First
    locate_from at [] = inl (refl, tt)
    locate_from at (x ∷ xs) = elim (Bool-cases (test x)) [
      | inl h ↦
          let f : First test (x ∷ xs) = record {
            before = [];
            found = x;
            behind = xs;
            split = refl;
            misses = tt;
            hit = h;
          } in
          inr (f, ground arith)
      | inr h ↦ elim (locate_from (suc at) xs) [
        | inl (e, misses) ↦ inl (rw h e, (h, misses))
        | inr (f, e) ↦ inr (cons_First x xs h f, ground arith)
      ]
    ]

    -- `find_index` finds the first element that passes, or there is none.
    pub locate :
        (xs : List A)
        → (find_index test xs ≡ none) × (All (λ x. test x ≡ false) xs)
          ⊎ (f : First test xs) × (find_index test xs ≡ some (length f.before))
    locate xs = elim (locate_from 0 xs) [ inl r ↦ inl r | inr (f, e) ↦ inr (f, ground arith) ]

  module _ (test : A → Bool) where
    find_index_from-split :
        (at : ℕ) (before : List A) (x : A) (behind : List A)
        → All (λ y. test y ≡ false) before
        → test x ≡ true
        → find_index_from at test (before ++ x ∷ behind) ≡ some (at + length before)
    find_index_from-split at [] x behind m h = rw h (ground arith)
    find_index_from-split at (b ∷ before) x behind m h =
        rw m.0 (ground (arith, find_index_from-split (suc at) before x behind m.1 h))

    pub find_index-split :
        (before : List A) (x : A) (behind : List A)
        → All (λ y. test y ≡ false) before
        → test x ≡ true
        → find_index test (before ++ x ∷ behind) ≡ some (length before)
    find_index-split before x behind m h =
        ground (arith, find_index_from-split 0 before x behind m h)

    find_index_from-none :
        (at : ℕ) (xs : List A) → All (λ y. test y ≡ false) xs → find_index_from at test xs ≡ none
    find_index_from-none at [] m = refl
    find_index_from-none at (x ∷ xs) m = rw m.0 (find_index_from-none (suc at) xs m.1)

    pub find_index-none : (xs : List A) → All (λ y. test y ≡ false) xs → find_index test xs ≡ none
    find_index-none xs m = find_index_from-none 0 xs m

  pub get_elem?-split :
      (before : List A) (x : A) (behind : List A)
      → get_elem? (before ++ x ∷ behind) (length before) ≡ some x
  get_elem?-split [] x behind = refl
  get_elem?-split (b ∷ before) x behind = get_elem?-split before x behind

  pub set-split :
      (before : List A) (x y : A) (behind : List A)
      → set (before ++ x ∷ behind) (length before) y ≡ before ++ y ∷ behind
  set-split [] x y behind = refl
  set-split (b ∷ before) x y behind = ap (◌∷◌ b) (set-split before x y behind)

  drop_index_above : (at idx : ℕ) (xs : List A) → idx < at → drop_index at idx xs ≡ xs
  drop_index_above at idx [] h = refl
  drop_index_above at idx (x ∷ xs) h = ground (arith, drop_index_above (suc at) idx xs)

  drop_index-split :
      (at : ℕ) (before : List A) (x : A) (behind : List A)
      → drop_index at (at + length before) (before ++ x ∷ behind) ≡ before ++ behind
  drop_index-split at [] x behind = ground (arith, drop_index_above (suc at) (at + 0) behind)
  drop_index-split at (b ∷ before) x behind =
      let e : at + suc (length before) ≡ suc at + length before = omega arith in
      rw e (ground (arith, drop_index-split (suc at) before x behind))

  pub drop_index_at :
      (before : List A) (x : A) (behind : List A)
      → drop_index 0 (length before) (before ++ x ∷ behind) ≡ before ++ behind
  drop_index_at before x behind = ground (arith, drop_index-split 0 before x behind)

  module _ {test : A → Bool} (xs : List A) (f : First test xs) where
    pub get_elem?-First : get_elem? xs (length f.before) ≡ some f.found
    get_elem?-First =
        ap (λ ys. get_elem? ys (length f.before)) f.split
        ∙ get_elem?-split f.before f.found f.behind

    pub set-First : (y : A) → set xs (length f.before) y ≡ f.before ++ y ∷ f.behind
    set-First y =
        ap (λ ys. set ys (length f.before) y) f.split ∙ set-split f.before f.found y f.behind

    pub drop_index-First : drop_index 0 (length f.before) xs ≡ f.before ++ f.behind
    drop_index-First =
        ap (drop_index 0 (length f.before)) f.split ∙ drop_index_at f.before f.found f.behind

  module _ {κ} (P : A → Type κ) where
    pub All-append : (xs ys : List A) → All P xs → All P ys → All P (xs ++ ys)
    All-append [] ys p q = q
    All-append (x ∷ xs) ys p q = (p.0, All-append xs ys p.1 q)

    pub All-left : (xs ys : List A) → All P (xs ++ ys) → All P xs
    All-left [] ys p = tt
    All-left (x ∷ xs) ys p = (p.0, All-left xs ys p.1)

    pub All-right : (xs ys : List A) → All P (xs ++ ys) → All P ys
    All-right [] ys p = p
    All-right (x ∷ xs) ys p = All-right xs ys p.1

    pub All-map_of {μ} :
        (Q : A → Type μ) (xs : List A) → ((x : A) → P x → Q x) → All P xs → All Q xs
    All-map_of Q [] f p = tt
    All-map_of Q (x ∷ xs) f p = (f x p.0, All-map_of Q xs f p.1)

pub length-map {ℓ κ} :
    {A : Type ℓ} {B : Type κ} (f : A → B) (xs : List A) → length (map f xs) ≡ length xs
length-map f [] = refl
length-map f (x ∷ xs) = ap suc (length-map f xs)

module _ {ℓ} {A : Type ℓ} where
  -- The second list begins with the first.
  abbrev pub Extends : List A → List A → Type ℓ
  Extends xs ys = (more : List A) × (ys ≡ xs ++ more)

  pub Extends-refl : (xs : List A) → Extends xs xs
  Extends-refl xs = ([], sym (append-nil xs))

  pub Extends-trans : (xs ys zs : List A) → Extends xs ys → Extends ys zs → Extends xs zs
  Extends-trans xs ys zs (more, e) (more', e') =
      (more ++ more', e' ∙ ap (λ l. l ++ more') e ∙ append_assoc xs more more')

  pub Extends-append : (xs ys : List A) → Extends xs (xs ++ ys)
  Extends-append xs ys = (ys, refl)

  get_elem?-append :
      (xs more : List A) (k : ℕ) (x : A)
      → get_elem? xs k ≡ some x
      → get_elem? (xs ++ more) k ≡ some x
  get_elem?-append [] more k x e = absurd (cc)
  get_elem?-append (y ∷ xs) more zero x e = e
  get_elem?-append (y ∷ xs) more (suc k) x e = get_elem?-append xs more k x e

  pub get_elem?-Extends :
      (xs ys : List A) (k : ℕ) (x : A)
      → Extends xs ys
      → get_elem? xs k ≡ some x
      → get_elem? ys k ≡ some x
  get_elem?-Extends xs ys k x (more, e) h = rw e (get_elem?-append xs more k x h)

  pub Extends-nil : (xs ys : List A) → Extends xs ys → ys ≡ [] → xs ≡ []
  Extends-nil [] ys h e = refl
  Extends-nil (x ∷ xs) ys (more, e) e' = absurd (cc)
