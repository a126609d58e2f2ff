-- ===== src/Base/Equality.antt =====
-- `===` for every type whose equality is decided. The decisions stay shut in proofs, where a
-- split on `a == b` yields the equation or its negation.
use Prim.Native.String.{String}
use mathlib.Core.Path.{◌≡◌, refl, ap}
use mathlib.Core.Logic.{ite, dite, ◌≢◌}
use mathlib.Core.Bool.{Bool, true, false, ◌||◌, Bool-discrete}
use mathlib.Core.Option.{Option, none, some, none-ne-some, some-ne-none, some-injective}
use mathlib.Core.List.{List, [], ◌∷◌}
use native.Mathlib.Omega.{arith}
use native.Mathlib.Decide.{ℕ_discrete}
use Prim.Native.Nat.{ℕ}
use text.Mathlib.Text
use text.Mathlib.TextEquality.{eq_iff}

pub record Eq {ℓ} (A : Type ℓ) : Type ℓ where
  pub decide_eq : Discrete A

module _ {ℓ} {A : Type ℓ} ⦃e : Eq A⦄ where
  infix 50 ◌==◌
  abbrev pub ◌==◌ : A → A → Bool
  a == b = ite (e.decide_eq a b) true false

  pub ==_refl : (a : A) → (a == a) ≡ true
  ==_refl a = ground arith

  pub ==→≡ : (a b : A) → (a == b) ≡ true → a ≡ b
  ==→≡ a b h = ground arith

  -- `array.includes(value)`
  unfoldable pub includes : List A → A → Bool
  includes [] a = false
  includes (x ∷ xs) a = a == x || includes xs a

  option_discrete : Discrete (Option A)
  option_discrete none none = yes refl
  option_discrete none (some b) = no (none-ne-some b)
  option_discrete (some a) none = no (some-ne-none a)
  option_discrete (some a) (some b) =
      dite (e.decide_eq a b) (λ p. yes (ap some p)) (λ n. no (λ p. n (some-injective a b p)))

  instance unfoldable pub option_eq : Eq (Option A)
  unfolding option_discrete
  option_eq = record { decide_eq = option_discrete }

instance unfoldable pub string_eq : Eq String
string_eq = record {
  decide_eq = λ s t.
      dite (Bool-discrete (Text.◌==◌ s t) true) (λ same. yes ((eq_iff s t).0 same))
        (λ differ. no (λ p. differ ((eq_iff s t).1 p)));
}

instance unfoldable pub number_eq : Eq ℕ
unfolding ℕ_discrete
number_eq = record { decide_eq = ℕ_discrete }

-- Two texts that the comparison tells apart differ.
pub ne_of_compare : (s t : String) → Text.◌==◌ s t ≡ false → s ≢ t
ne_of_compare s t h e = let k = (eq_iff s t).1 e in cc
