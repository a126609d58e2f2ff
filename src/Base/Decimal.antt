-- ===== src/Base/Decimal.antt =====
-- `String(n)` for a whole number, and that it tells numbers apart.
use Prim.Native.Char.{Char, code}
use Prim.Native.String.{String, ◌++◌}
use Prim.Native.Nat.{ℕ, zero, suc, ◌+◌, ◌-◌, ◌*◌, ◌/◌, ◌%◌, ◌<◌}
use mathlib.Core.Bool.{Bool, true, ◌&&◌}
use mathlib.Core.Option.{Option, none, some}
use osqueue.Base.Tests.{leb, if◌then◌else◌, or_default}
use mathlib.Core.Path.{◌≡◌, refl, ap, ◌∙◌, sym}
use native.Mathlib.Omega.{arith}
use native.Mathlib.Decide.{dec_lt}
use text.Mathlib.TextLemmas.{nil-append, cons-append, append-nil, append_assoc}

digit : ℕ → String
digit zero = "0"
digit (suc zero) = "1"
digit (suc (suc zero)) = "2"
digit (suc (suc (suc zero))) = "3"
digit (suc (suc (suc (suc zero)))) = "4"
digit (suc (suc (suc (suc (suc zero))))) = "5"
digit (suc (suc (suc (suc (suc (suc zero)))))) = "6"
digit (suc (suc (suc (suc (suc (suc (suc zero))))))) = "7"
digit (suc (suc (suc (suc (suc (suc (suc (suc zero)))))))) = "8"
digit (suc (suc (suc (suc (suc (suc (suc (suc (suc n))))))))) = "9"

-- With as much fuel as the number, the digits do not run out.
decimal_fuel : ℕ → ℕ → String
decimal_fuel zero n = digit n
decimal_fuel (suc fuel) n = elim (dec_lt n 10) [
  | yes h ↦ digit n
  | no h ↦ decimal_fuel fuel (n / 10) ++ digit (n % 10)
]

unfoldable pub decimal : ℕ → String
unfolding decimal_fuel digit dec_lt
decimal n = decimal_fuel n n

value_from : ℕ → String → ℕ
value_from acc String.[] = acc
value_from acc (String.◌∷◌ c s) = value_from (acc * 10 + (code c - 48)) s

value_from-append :
    (acc : ℕ) (s t : String) → value_from acc (s ++ t) ≡ value_from (value_from acc s) t
unfolding value_from
value_from-append acc String.[] t = ap (value_from acc) (nil-append t)
value_from-append acc (String.◌∷◌ c s) t =
    ap (value_from acc) (cons-append c s t) ∙ value_from-append (acc * 10 + (code c - 48)) s t

value_from-digit : (acc n : ℕ) → n < 10 → value_from acc (digit n) ≡ acc * 10 + n
unfolding value_from digit
value_from-digit acc zero h = refl
value_from-digit acc (suc zero) h = refl
value_from-digit acc (suc (suc zero)) h = refl
value_from-digit acc (suc (suc (suc zero))) h = refl
value_from-digit acc (suc (suc (suc (suc zero)))) h = refl
value_from-digit acc (suc (suc (suc (suc (suc zero))))) h = refl
value_from-digit acc (suc (suc (suc (suc (suc (suc zero)))))) h = refl
value_from-digit acc (suc (suc (suc (suc (suc (suc (suc zero))))))) h = refl
value_from-digit acc (suc (suc (suc (suc (suc (suc (suc (suc zero)))))))) h = refl
value_from-digit acc (suc (suc (suc (suc (suc (suc (suc (suc (suc n))))))))) h = omega arith

value-decimal_fuel : (fuel n : ℕ) → n < fuel + 10 → value_from 0 (decimal_fuel fuel n) ≡ n
unfolding decimal_fuel
value-decimal_fuel zero n h = value_from-digit 0 n (omega arith) ∙ omega arith
value-decimal_fuel (suc fuel) n h =
    elim (dec_lt n 10)
      as (λ d.
        value_from 0
          (elim d [ yes _ ↦ digit n | no _ ↦ decimal_fuel fuel (n / 10) ++ digit (n % 10) ])
        ≡ n) [
          | yes below ↦ value_from-digit 0 n below ∙ omega arith
          | no above ↦
              value_from-append 0 (decimal_fuel fuel (n / 10)) (digit (n % 10))
              ∙ value_from-digit (value_from 0 (decimal_fuel fuel (n / 10))) (n % 10) (omega arith)
              ∙ omega (arith, value-decimal_fuel fuel (n / 10) (omega arith))
        ]

-- Different numbers have different texts.
pub decimal-injective : (a b : ℕ) → decimal a ≡ decimal b → a ≡ b
unfolding decimal
decimal-injective a b e =
    sym (value-decimal_fuel a a (omega arith))
    ∙ ap (value_from 0) e
    ∙ value-decimal_fuel b b (omega arith)

is_digit : ℕ → Bool
is_digit c = leb 48 c && leb c 57

digits_from : Option ℕ → String → Option ℕ
digits_from acc String.[] = acc
digits_from acc (String.◌∷◌ c s) =
    if is_digit (code c) then digits_from (some (or_default acc 0 * 10 + (code c - 48))) s else acc

-- `parseInt(text, 10)` of a text that starts with neither a blank nor a sign; `none` is NaN.
unfoldable pub parse_int : String → Option ℕ
unfolding digits_from is_digit
parse_int text = digits_from none text

digits_from-char :
    (acc : Option ℕ) (c : Char) (t : String)
    → is_digit (code c) ≡ true
    → digits_from acc (String.◌∷◌ c String.[] ++ t)
      ≡ digits_from (some (or_default acc 0 * 10 + (code c - 48))) t
unfolding digits_from
digits_from-char acc c t e =
    ap (digits_from acc) (cons-append c String.[] t ∙ ap (String.◌∷◌ c) (nil-append t)) ∙ rw e refl

digits_from-digit :
    (acc : Option ℕ) (n : ℕ) (t : String)
    → n < 10
    → digits_from acc (digit n ++ t) ≡ digits_from (some (or_default acc 0 * 10 + n)) t
unfolding digits_from digit is_digit
digits_from-digit acc zero t h = digits_from-char acc "0" t refl
digits_from-digit acc (suc zero) t h = digits_from-char acc "1" t refl
digits_from-digit acc (suc (suc zero)) t h = digits_from-char acc "2" t refl
digits_from-digit acc (suc (suc (suc zero))) t h = digits_from-char acc "3" t refl
digits_from-digit acc (suc (suc (suc (suc zero)))) t h = digits_from-char acc "4" t refl
digits_from-digit acc (suc (suc (suc (suc (suc zero))))) t h = digits_from-char acc "5" t refl
digits_from-digit acc (suc (suc (suc (suc (suc (suc zero)))))) t h = digits_from-char acc "6" t refl
digits_from-digit acc (suc (suc (suc (suc (suc (suc (suc zero))))))) t h =
    digits_from-char acc "7" t refl
digits_from-digit acc (suc (suc (suc (suc (suc (suc (suc (suc zero)))))))) t h =
    digits_from-char acc "8" t refl
digits_from-digit acc (suc (suc (suc (suc (suc (suc (suc (suc (suc n))))))))) t h =
    digits_from-char acc "9" t refl
    ∙ ap (λ k. digits_from (some (or_default acc 0 * 10 + k)) t) (omega arith)

digits_from-decimal_fuel :
    (fuel n : ℕ) (t : String)
    → n < fuel + 10
    → digits_from none (decimal_fuel fuel n ++ t) ≡ digits_from (some n) t
unfolding decimal_fuel
digits_from-decimal_fuel zero n t h =
    digits_from-digit none n t (omega arith) ∙ ap (λ k. digits_from (some k) t) (omega arith)
digits_from-decimal_fuel (suc fuel) n t h =
    elim (dec_lt n 10)
      as (λ d.
        digits_from none
          (elim d [ yes _ ↦ digit n | no _ ↦ decimal_fuel fuel (n / 10) ++ digit (n % 10) ] ++ t)
        ≡ digits_from (some n) t) [
          | yes below ↦
              digits_from-digit none n t below ∙ ap (λ k. digits_from (some k) t) (omega arith)
          | no above ↦
              ap (digits_from none) (append_assoc (decimal_fuel fuel (n / 10)) (digit (n % 10)) t)
              ∙ digits_from-decimal_fuel fuel (n / 10) (digit (n % 10) ++ t) (omega arith)
              ∙ digits_from-digit (some (n / 10)) (n % 10) t (omega arith)
              ∙ ap (λ k. digits_from (some k) t) (omega arith)
        ]

-- Reading the text of a number gives the number back.
pub parse_int-decimal : (n : ℕ) → parse_int (decimal n) ≡ some n
unfolding parse_int decimal digits_from
parse_int-decimal n =
    ap (digits_from none) (sym (append-nil (decimal_fuel n n)))
    ∙ digits_from-decimal_fuel n n "" (omega arith)
