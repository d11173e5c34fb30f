-- ===== src/Os/Argument.antt =====
-- A descriptor that is written into a buffer of three characters.
use Prim.Native.Nat.{◌/◌}
use sistemas_distribuid.Base.{
  lt→ltb, not_lt→ltb, ℕ, suc, ◌+◌, ◌%◌, ◌≤◌, ◌<◌, pos, ltb, if◌then◌else◌, ◌≡◌, refl, ap, ◌∙◌,
  Bool-cases, inl, inr, [], ◌∷◌, ◌++◌, arith, print, digits, strtol, strtol-print,
}
use sistemas_distribuid.Os.Calls.{snprintf}

one_digit : (fuel n : ℕ) → n < 10 → digits (suc fuel) n ≡ (48 + n) ∷ []
unfolding digits
one_digit fuel n h = rw (lt→ltb n 10 h) refl

more_digits :
    (fuel n : ℕ) → 10 ≤ n → digits (suc fuel) n ≡ digits fuel (n / 10) ++ (48 + n % 10) ∷ []
unfolding digits
more_digits fuel n h = rw (not_lt→ltb n 10 h) refl

two_digits :
    (fuel n : ℕ) → 10 ≤ n → n < 100 → digits (suc (suc fuel)) n ≡ (48 + n / 10) ∷ (48 + n % 10) ∷ []
two_digits fuel n h k = more_digits (suc fuel) n h ∙ rw (one_digit fuel (n / 10) (omega arith)) refl

snprintf-two : (n : ℕ) → n < 100 → snprintf 3 (pos n) ≡ print (pos n)
unfolding snprintf print
snprintf-two n h = elim (Bool-cases (ltb n 10)) [
  | inl small ↦ rw (one_digit 9 n (ground arith)) refl
  | inr large ↦ rw (two_digits 8 n (ground arith) h) refl
]

snprintf-three : (n : ℕ) → 100 ≤ n → n < 1000 → snprintf 3 (pos n) ≡ print (pos (n / 10))
unfolding snprintf print
snprintf-three n h k =
    rw
      (
        more_digits 9 n (omega arith),
        two_digits 7 (n / 10) (omega arith) (omega arith),
        two_digits 8 (n / 10) (omega arith) (omega arith),
      )
      refl

-- What is left of a descriptor.
pub strtol-snprintf :
    (n : ℕ) → n < 1000 → strtol (snprintf 3 (pos n)) ≡ pos (if ltb n 100 then n else n / 10)
strtol-snprintf n h = elim (Bool-cases (ltb n 100)) [
  | inl fits ↦
      ap strtol (snprintf-two n (ground arith)) ∙ strtol-print (pos n) (ground arith) ∙ rw fits refl
  | inr cut ↦
      ap strtol (snprintf-three n (ground arith) h)
      ∙ strtol-print (pos (n / 10)) (ground arith)
      ∙ rw cut refl
]
