-- ===== src/Base/Text/Digits.antt =====
-- strconv.ParseInt and strconv.FormatInt in base 10, and their round trip.
use Prim.Native.Nat.{ℕ, zero, suc, ◌+◌, ◌-◌, ◌*◌, ◌/◌, ◌%◌, ◌^◌, ◌<◌}
use Prim.Native.Char.{Char, code}
use Prim.Native.String.{String}
use mathlib.Core.Path.{◌≡◌, refl, ap, ◌∙◌}
use mathlib.Core.Bool.{Bool, ◌&&◌}
use mathlib.Core.Logic.{inl, inr}
use mathlib.Core.Option.{Option, none, some}
use native.Mathlib.Omega.{arith}
use starrocks_kubernetes_ope.Base.Tests.{ltb, leb, eqb, if◌then◌else◌, Bool-cases, eqb_iff}
use starrocks_kubernetes_ope.Base.Int.{ℤ, pos, negsuc}

abbrev pub is_digit : ℕ → Bool
is_digit c = leb b'0' c && leb c b'9'

parse_digits : ℕ → String → Option ℕ
parse_digits acc String.[] = some acc
parse_digits acc (String.◌∷◌ c s) =
    let rest = parse_digits (acc * 10 + (code c - 48)) s in if is_digit (code c) then rest else none

parse_unsigned : String → Option ℕ
unfolding parse_digits
parse_unsigned String.[] = none
parse_unsigned (String.◌∷◌ c s) = parse_digits 0 (String.◌∷◌ c s)

in_range : ℕ → Option ℕ → Option ℤ
in_range limit none = none
in_range limit (some n) = if ltb n limit then some (pos n) else none

negated : ℕ → Option ℕ → Option ℤ
negated limit none = none
negated limit (some zero) = some (pos 0)
negated limit (some (suc n)) = if ltb n limit then some (negsuc n) else none

-- `strconv.ParseInt(s, 10, bits)`; every error is `none`.
unfoldable pub parse_int : ℕ → String → Option ℤ
unfolding parse_unsigned in_range negated
parse_int bits String.[] = none
parse_int bits (String.◌∷◌ c s) =
    let limit = 2 ^ (bits - 1) in
    if eqb (code c) b'-'
    then negated limit (parse_unsigned s)
    else if eqb (code c) b'+'
    then in_range limit (parse_unsigned s)
    else in_range limit (parse_unsigned (String.◌∷◌ c s))

digit_char : ℕ → Char
digit_char zero = "0"
digit_char (suc zero) = "1"
digit_char (suc (suc zero)) = "2"
digit_char (suc (suc (suc zero))) = "3"
digit_char (suc (suc (suc (suc zero)))) = "4"
digit_char (suc (suc (suc (suc (suc zero))))) = "5"
digit_char (suc (suc (suc (suc (suc (suc zero)))))) = "6"
digit_char (suc (suc (suc (suc (suc (suc (suc zero))))))) = "7"
digit_char (suc (suc (suc (suc (suc (suc (suc (suc zero)))))))) = "8"
digit_char _ = "9"

print_digits : ℕ → ℕ → String → String
unfolding digit_char
print_digits zero n acc = acc
print_digits (suc fuel) n acc =
    let text = String.◌∷◌ (digit_char (n % 10)) acc in
    let more = print_digits fuel (n / 10) text in if eqb (n / 10) 0 then text else more

-- `strconv.FormatInt(n, 10)`: the fuel n + 1 is enough for the digits of n.
unfoldable pub format_int : ℤ → String
unfolding print_digits
format_int (pos n) = print_digits (suc n) n ""
format_int (negsuc n) = String.◌∷◌ "-" (print_digits (suc (suc n)) (suc n) "")

code-digit_char : (d : ℕ) → d < 10 → code (digit_char d) ≡ d + 48
unfolding digit_char
code-digit_char zero h = refl
code-digit_char (suc zero) h = refl
code-digit_char (suc (suc zero)) h = refl
code-digit_char (suc (suc (suc zero))) h = refl
code-digit_char (suc (suc (suc (suc zero)))) h = refl
code-digit_char (suc (suc (suc (suc (suc zero))))) h = refl
code-digit_char (suc (suc (suc (suc (suc (suc zero)))))) h = refl
code-digit_char (suc (suc (suc (suc (suc (suc (suc zero))))))) h = refl
code-digit_char (suc (suc (suc (suc (suc (suc (suc (suc zero)))))))) h = refl
code-digit_char (suc (suc (suc (suc (suc (suc (suc (suc (suc zero))))))))) h = refl
code-digit_char (suc (suc (suc (suc (suc (suc (suc (suc (suc (suc d)))))))))) h =
    absurd (omega arith)

parse_digit :
    (a d : ℕ) (s : String)
    → d < 10
    → parse_digits a (String.◌∷◌ (digit_char d) s) ≡ parse_digits (a * 10 + d) s
unfolding parse_digits
parse_digit a d s h = rw (code-digit_char d h) (step (d + 48 - 48) (omega arith))
  where
    step :
        (e : ℕ)
        → e ≡ d
        → (if is_digit (d + 48) then parse_digits (a * 10 + e) s else none)
          ≡ parse_digits (a * 10 + d) s
    step e same = rw same (ground arith)

same_number : (m n : ℕ) (acc : String) → m ≡ n → parse_digits m acc ≡ parse_digits n acc
same_number m n acc e = ap (λ k. parse_digits k acc) e

parse-print_digits :
    (fuel n : ℕ) (acc : String)
    → n < fuel
    → parse_digits 0 (print_digits fuel n acc) ≡ parse_digits n acc
unfolding print_digits
parse-print_digits zero n acc h = absurd (omega arith)
parse-print_digits (suc fuel) n acc h = elim (Bool-cases (eqb (n / 10) 0)) [
  | inl done ↦
      let z : n / 10 ≡ 0 = (eqb_iff _ _).0 done in
      rw done (
        parse_digit 0 (n % 10) acc (omega arith)
        ∙ same_number (0 * 10 + n % 10) n acc (omega arith))
  | inr more ↦
      let small : n / 10 < fuel = ground arith in
      rw more (
        parse-print_digits fuel (n / 10) (String.◌∷◌ (digit_char (n % 10)) acc) small
        ∙ parse_digit (n / 10) (n % 10) acc (omega arith)
        ∙ same_number (n / 10 * 10 + n % 10) n acc (omega arith))
]

abbrev IsNonEmpty : String → Type 0
IsNonEmpty String.[] = ⊥
IsNonEmpty (String.◌∷◌ c s) = Unit

print_digits-IsNonEmpty :
    (fuel n : ℕ) (acc : String) → IsNonEmpty acc → IsNonEmpty (print_digits fuel n acc)
unfolding print_digits
print_digits-IsNonEmpty zero n acc h = h
print_digits-IsNonEmpty (suc fuel) n acc h = elim (Bool-cases (eqb (n / 10) 0)) [
  | inl done ↦ rw done tt
  | inr more ↦
      rw more (print_digits-IsNonEmpty fuel (n / 10) (String.◌∷◌ (digit_char (n % 10)) acc) tt)
]

print_digits-suc-IsNonEmpty :
    (fuel n : ℕ) (acc : String) → IsNonEmpty (print_digits (suc fuel) n acc)
unfolding print_digits
print_digits-suc-IsNonEmpty fuel n acc = elim (Bool-cases (eqb (n / 10) 0)) [
  | inl done ↦ rw done tt
  | inr more ↦
      rw more (print_digits-IsNonEmpty fuel (n / 10) (String.◌∷◌ (digit_char (n % 10)) acc) tt)
]

-- Text that reads as an unsigned number is read so by `parse_int`.
parse_int_of_digits :
    (bits n : ℕ) (s : String)
    → IsNonEmpty s
    → parse_digits 0 s ≡ some n
    → n < 2 ^ (bits - 1)
    → parse_int bits s ≡ some (pos n)
unfolding parse_int parse_digits
parse_int_of_digits bits n String.[] ne p h = absurd ne
parse_int_of_digits bits n (String.◌∷◌ c s) ne p h = ground arith

-- The digits after a minus sign are read as the negated number.
parse_int_of_minus :
    (bits n : ℕ) (s : String)
    → IsNonEmpty s
    → parse_digits 0 s ≡ some (suc n)
    → n < 2 ^ (bits - 1)
    → parse_int bits (String.◌∷◌ "-" s) ≡ some (negsuc n)
unfolding parse_int parse_digits
parse_int_of_minus bits n String.[] ne p h = absurd ne
parse_int_of_minus bits n (String.◌∷◌ c s) ne p h = ground arith

-- The numbers that fit into a signed word of so many bits.
abbrev pub FitsBits : ℕ → ℤ → Type 0
FitsBits bits (pos n) = n < 2 ^ (bits - 1)
FitsBits bits (negsuc n) = n < 2 ^ (bits - 1)

-- What `strconv.FormatInt` prints, `strconv.ParseInt` reads back.
pub parse_int-format_int :
    (bits : ℕ) (n : ℤ) → FitsBits bits n → parse_int bits (format_int n) ≡ some n
unfolding format_int parse_digits
parse_int-format_int bits (pos n) h =
    parse_int_of_digits bits n _ (print_digits-suc-IsNonEmpty n n "")
      (parse-print_digits (suc n) n "" (omega arith)) h
parse_int-format_int bits (negsuc n) h =
    parse_int_of_minus bits n _ (print_digits-suc-IsNonEmpty (suc n) (suc n) "")
      (parse-print_digits (suc (suc n)) (suc n) "" (omega arith)) h

in_range-FitsBits :
    (bits : ℕ) (o : Option ℕ) {n : ℤ} → in_range (2 ^ (bits - 1)) o ≡ some n → FitsBits bits n
unfolding in_range
in_range-FitsBits bits none h = cc
in_range-FitsBits bits (some k) h = ground arith

negated-FitsBits :
    (bits : ℕ) (o : Option ℕ) {n : ℤ}
    → 0 < 2 ^ (bits - 1)
    → negated (2 ^ (bits - 1)) o ≡ some n
    → FitsBits bits n
unfolding negated
negated-FitsBits bits none p h = cc
negated-FitsBits bits (some zero) p h = ground arith
negated-FitsBits bits (some (suc k)) p h = ground arith

-- What `strconv.ParseInt` reads fits into the bits that it is given.
pub parse_int-FitsBits :
    (bits : ℕ) (s : String) {n : ℤ}
    → 0 < 2 ^ (bits - 1)
    → parse_int bits s ≡ some n
    → FitsBits bits n
unfolding parse_int
parse_int-FitsBits bits String.[] p h = cc
parse_int-FitsBits bits (String.◌∷◌ c s) {n} p h = elim (Bool-cases (eqb (code c) b'-')) [
  | inl minus ↦ negated-FitsBits bits (parse_unsigned s) p (rw minus at h)
  | inr other ↦ elim (Bool-cases (eqb (code c) b'+')) [
    | inl plus ↦ in_range-FitsBits bits (parse_unsigned s) (rw (other, plus) at h)
    | inr digit ↦ in_range-FitsBits bits (parse_unsigned (String.◌∷◌ c s)) (rw (other, digit) at h)
  ]
]
