-- ===== src/Client/Interface/Lines.antt =====
-- broker/client/client.c: what `read_input` makes of a line.
use sistemas_distribuid.Base.{
  ℕ, zero, suc, ◌-◌, ◌<◌, ◌≤◌, ◌≡◌, refl, ap, ◌==◌, if◌then◌else◌, false, ltb, List, [], ◌∷◌, ◌++◌,
  length, take, drop, text, arith, Bool-cases, inl, inr,
}
use sistemas_distribuid.Client.Interface.{take_line, fgets, chomp, read_input, newline}

-- A line that was typed: without a newline and without a NUL.
abbrev pub IsPlain : List ℕ → Type 0
IsPlain [] = Unit {0}
IsPlain (c ∷ cs) = ((c == newline) ≡ false) × ((c == 0) ≡ false) × IsPlain cs

take-IsPlain : (n : ℕ) (line : List ℕ) → IsPlain line → IsPlain (take n line)
take-IsPlain zero line h = tt
take-IsPlain (suc n) [] h = tt
take-IsPlain (suc n) (c ∷ cs) (a, b, h) = (a, b, take-IsPlain n cs h)

text-plain : (line : List ℕ) → IsPlain line → text line ≡ line
text-plain [] h = refl
text-plain (c ∷ cs) (a, b, h) = rw b (ap (◌∷◌ c) (text-plain cs h))

text-line : (line : List ℕ) → IsPlain line → text (line ++ newline ∷ []) ≡ line ++ newline ∷ []
text-line [] h = refl
text-line (c ∷ cs) (a, b, h) = rw b (ap (◌∷◌ c) (text-line cs h))

chomp-plain : (line : List ℕ) → IsPlain line → chomp line ≡ line
unfolding chomp
chomp-plain [] h = refl
chomp-plain (c ∷ []) (a, b, h) = rw a refl
chomp-plain (c ∷ d ∷ cs) (a, b, h) = ap (◌∷◌ c) (chomp-plain (d ∷ cs) h)

chomp-line : (line : List ℕ) → IsPlain line → chomp (line ++ newline ∷ []) ≡ line
unfolding chomp
chomp-line [] h = refl
chomp-line (c ∷ []) h = refl
chomp-line (c ∷ d ∷ cs) (a, b, h) = ap (◌∷◌ c) (chomp-line (d ∷ cs) h)

take_line-short :
    (n : ℕ) (line rest : List ℕ)
    → IsPlain line
    → length line < n
    → take_line n (line ++ newline ∷ rest) ≡ (line ++ newline ∷ [], rest)
unfolding take_line
take_line-short zero line rest h k = absurd (omega arith)
take_line-short (suc n) [] rest h k = refl
take_line-short (suc n) (c ∷ cs) rest (a, b, h) k =
    rw (a, take_line-short n cs rest h (omega arith)) refl

take_line-long :
    (n : ℕ) (line rest : List ℕ)
    → IsPlain line
    → n ≤ length line
    → take_line n (line ++ newline ∷ rest) ≡ (take n line, drop n line ++ newline ∷ rest)
unfolding take_line
take_line-long zero line rest h k = refl
take_line-long (suc n) [] rest h k = absurd (omega arith)
take_line-long (suc n) (c ∷ cs) rest (a, b, h) k =
    rw (a, take_line-long n cs rest h (omega arith)) refl

fgets-line :
    (before line rest : List ℕ) (max_size : ℕ)
    → fgets before max_size (line ++ newline ∷ rest)
      ≡ take_line (max_size - 1) (line ++ newline ∷ rest)
unfolding fgets
fgets-line before [] rest max_size = refl
fgets-line before (c ∷ cs) rest max_size = refl

pub read_input-short :
    (before line rest : List ℕ) (max_size : ℕ)
    → IsPlain line
    → length line < max_size - 1
    → read_input before max_size (line ++ newline ∷ rest) ≡ (line, rest)
unfolding read_input
read_input-short before line rest max_size h k =
    rw
      (
        fgets-line before line rest max_size,
        take_line-short (max_size - 1) line rest h k,
        text-line line h,
        chomp-line line h,
      )
      refl

read_input-long :
    (before line rest : List ℕ) (max_size : ℕ)
    → IsPlain line
    → max_size - 1 ≤ length line
    → read_input before max_size (line ++ newline ∷ rest)
      ≡ (take (max_size - 1) line, drop (max_size - 1) line ++ newline ∷ rest)
unfolding read_input
read_input-long before line rest max_size h k =
    let plain = take-IsPlain (max_size - 1) line h in
    rw
      (
        fgets-line before line rest max_size,
        take_line-long (max_size - 1) line rest h k,
        text-plain (take (max_size - 1) line) plain,
        chomp-plain (take (max_size - 1) line) plain,
      )
      refl

-- A line that was typed without a NUL is read whole and without its newline where it is shorter
-- than the buffer less one; of any other it reads as many characters as the buffer has less one,
-- and the rest of the line is what is read next.
pub read_input-line :
    (before line rest : List ℕ) (max_size : ℕ)
    → IsPlain line
    → read_input before max_size (line ++ newline ∷ rest) ≡ (
        if ltb (length line) (max_size - 1)
        then (line, rest)
        else (take (max_size - 1) line, drop (max_size - 1) line ++ newline ∷ rest))
read_input-line before line rest max_size h = elim (Bool-cases (ltb (length line) (max_size - 1))) [
  | inl short ↦ rw short (read_input-short before line rest max_size h (ground arith))
  | inr long ↦ rw long (read_input-long before line rest max_size h (ground arith))
]
