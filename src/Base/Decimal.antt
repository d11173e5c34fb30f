-- ===== src/Base/Decimal.antt =====
-- `snprintf(s, n, "%d", id)` and `strtol(s, NULL, 10)` on ASCII texts, and the test of texts.
use Prim.Native.Nat.{ℕ, zero, suc, ◌+◌, ◌-◌, ◌*◌, ◌/◌, ◌%◌, ◌<◌}
use mathlib.Core.Path.{◌≡◌, refl, ap, ◌∙◌}
use mathlib.Core.Logic.{◌↔◌, inl, inr}
use mathlib.Core.Bool.{Bool, true, false, ◌&&◌}
use mathlib.Core.List.{List, [], ◌∷◌, ◌++◌}
use native.Mathlib.Omega.{arith}
use sistemas_distribuid.Base.Tests.{ltb, leb, ◌==◌, if◌then◌else◌, Bool-cases}
use sistemas_distribuid.Base.Int.{ℤ, pos, negsuc, to_int, to_int-id, to_int-IsInt, IsInt}

-- A text ends at the first NUL, or where the buffer does.
abbrev pub text : List ℕ → List ℕ
text [] = []
text (c ∷ cs) = if c == 0 then [] else c ∷ text cs

abbrev pub text_eq : List ℕ → List ℕ → Bool
text_eq [] [] = true
text_eq [] (y ∷ ys) = false
text_eq (x ∷ xs) [] = false
text_eq (x ∷ xs) (y ∷ ys) = x == y && text_eq xs ys

pub text_eq_iff : (xs ys : List ℕ) → (text_eq xs ys ≡ true) ↔ (xs ≡ ys)
text_eq_iff [] [] = ground arith
text_eq_iff [] (y ∷ ys) = ground arith
text_eq_iff (x ∷ xs) [] = ground arith
text_eq_iff (x ∷ xs) (y ∷ ys) = ground (arith, text_eq_iff xs ys)

pub text_eq_refl : (xs : List ℕ) → text_eq xs xs ≡ true
text_eq_refl xs = (text_eq_iff xs xs).1 refl

-- The decimal digits of a number that has at most as many of them as the fuel says.
unfoldable pub digits : ℕ → ℕ → List ℕ
digits zero n = []
digits (suc fuel) n =
    let rest = digits fuel (n / 10) in
    if ltb n 10 then (48 + n) ∷ [] else rest ++ (48 + n % 10) ∷ []

-- Ten digits are enough for an `int`.
unfoldable pub print : ℤ → List ℕ
unfolding digits
print (pos n) = digits 10 n
print (negsuc n) = b'-' ∷ digits 10 (suc n)

abbrev is_digit : ℕ → Bool
is_digit c = leb 48 c && ltb c 58

-- The number that the leading digits give, after `acc`.
unfoldable pub read_digits : ℕ → List ℕ → ℕ
read_digits acc [] = acc
read_digits acc (c ∷ cs) = if is_digit c then read_digits (acc * 10 + (c - 48)) cs else acc

abbrev negate : ℕ → ℤ
negate zero = pos 0
negate (suc n) = negsuc n

-- `(int) strtol(s, NULL, 10)` on a text with no leading space. The value of a text that is too long
-- for a `long` is not that of the library.
unfoldable pub strtol : List ℕ → ℤ
unfolding read_digits to_int
strtol [] = pos 0
strtol (c ∷ cs) =
    if c == b'-' then to_int (negate (read_digits 0 cs)) else to_int (pos (read_digits 0 (c ∷ cs)))

abbrev AllDigits : List ℕ → Type 0
AllDigits [] = Unit {0}
AllDigits (c ∷ cs) = (is_digit c ≡ true) × AllDigits cs

AllDigits-append :
    (xs : List ℕ) (c : ℕ) → AllDigits xs → is_digit c ≡ true → AllDigits (xs ++ c ∷ [])
AllDigits-append [] c h k = (k, tt)
AllDigits-append (x ∷ xs) c h k = (h.0, AllDigits-append xs c h.1 k)

digit : (d : ℕ) → d < 10 → is_digit (48 + d) ≡ true
digit d h = ground arith

digits-AllDigits : (fuel n : ℕ) → AllDigits (digits fuel n)
unfolding digits
digits-AllDigits zero n = tt
digits-AllDigits (suc fuel) n = elim (Bool-cases (ltb n 10)) [
  | inl small ↦ rw small (digit n (ground arith), tt)
  | inr large ↦ rw large (
      AllDigits-append (digits fuel (n / 10)) (48 + n % 10) (digits-AllDigits fuel (n / 10))
        (digit (n % 10) (omega arith)))
]

read_digits-append :
    (acc d : ℕ) (xs : List ℕ)
    → AllDigits xs
    → d < 10
    → read_digits acc (xs ++ (48 + d) ∷ []) ≡ read_digits acc xs * 10 + d
unfolding read_digits
read_digits-append acc d [] h k = rw (digit d k) (omega arith)
read_digits-append acc d (x ∷ xs) h k = rw h.0 (read_digits-append (acc * 10 + (x - 48)) d xs h.1 k)

abbrev pow10 : ℕ → ℕ
pow10 zero = 1
pow10 (suc n) = 10 * pow10 n

read_digits-digits : (fuel n : ℕ) → 0 < fuel → n < pow10 fuel → read_digits 0 (digits fuel n) ≡ n
unfolding digits read_digits
read_digits-digits zero n h k = absurd (omega arith)
read_digits-digits (suc zero) n h k = ground (arith, digit n)
read_digits-digits (suc (suc fuel)) n h k = elim (Bool-cases (ltb n 10)) [
  | inl small ↦ rw (small, digit n (ground arith)) (omega arith)
  | inr large ↦
      let quotient = read_digits-digits (suc fuel) (n / 10) (omega arith) (omega arith) in
      rw large (
        read_digits-append 0 (n % 10) (digits (suc fuel) (n / 10))
          (digits-AllDigits (suc fuel) (n / 10)) (omega arith)
        ∙ (rw quotient (omega arith)))
]

strtol-AllDigits : (xs : List ℕ) → AllDigits xs → strtol xs ≡ to_int (pos (read_digits 0 xs))
unfolding strtol
strtol-AllDigits [] h = refl
strtol-AllDigits (c ∷ cs) h = ground arith

strtol_minus : (n : ℕ) → n < pow10 10 → strtol (b'-' ∷ digits 10 n) ≡ to_int (negate n)
unfolding strtol
strtol_minus n h = ap (λ k. to_int (negate k)) (read_digits-digits 10 n (omega arith) h)

-- Reading a printed `int` gives it back.
pub strtol-print : (x : ℤ) → IsInt x → strtol (print x) ≡ x
unfolding print
strtol-print (pos n) h =
    strtol-AllDigits (digits 10 n) (digits-AllDigits 10 n)
    ∙ ap (λ k. to_int (pos k)) (read_digits-digits 10 n (omega arith) (omega arith))
    ∙ to_int-id (pos n) h
strtol-print (negsuc n) h = strtol_minus (suc n) (omega arith) ∙ to_int-id (negsuc n) h

pub strtol-IsInt : (xs : List ℕ) → IsInt (strtol xs)
unfolding strtol
strtol-IsInt [] = omega arith
strtol-IsInt (c ∷ cs) =
    ground
      (arith, to_int-IsInt (negate (read_digits 0 cs)), to_int-IsInt (pos (read_digits 0 (c ∷ cs))))
