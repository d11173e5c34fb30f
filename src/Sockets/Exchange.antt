-- ===== src/Sockets/Exchange.antt =====
-- sockets/client.c and server.c together.
use sistemas_distribuid.Base.{
  text, ℕ, zero, suc, ◌≤◌, ◌≡◌, refl, ap, ◌∙◌, Bool-cases, inl, inr, List, [], ◌∷◌, ◌++◌, length,
  length-append, length-take, take, drop, keep, arith, ◌==◌, pos, some, false, length-drop, set,
  length-set, ltb,
}
use sistemas_distribuid.Sockets.{
  respond, print_answer, buffer_size, remove_vowels, terminate, compact, nth, is_vowel,
}
use sistemas_distribuid.Sockets.Vowels.{remove_vowels-text, consonant}

-- A text without a NUL.
abbrev pub IsText : List ℕ → Type 0
IsText [] = Unit {0}
IsText (c ∷ cs) = ((c == 0) ≡ false) × IsText cs

text-append : (cs ds : List ℕ) → IsText cs → text (cs ++ ds) ≡ cs ++ text ds
text-append [] ds h = refl
text-append (c ∷ cs) ds (k, h) = rw k (ap (◌∷◌ c) (text-append cs ds h))

-- The first `n` characters with a NUL behind them.
text-take : (n : ℕ) (cs : List ℕ) → text (take n cs ++ 0 ∷ []) ≡ take n (text cs)
text-take zero cs = refl
text-take (suc n) [] = refl
text-take (suc n) (c ∷ cs) = elim (Bool-cases (c == 0)) [
  | inl nul ↦ rw nul refl
  | inr other ↦ rw other (ap (◌∷◌ c) (text-take n cs))
]

drop-last : (msg : List ℕ) → drop (length msg) (msg ++ 0 ∷ []) ≡ 0 ∷ []
drop-last [] = refl
drop-last (c ∷ cs) = drop-last cs

length-compact : (rounds i j : ℕ) (str : List ℕ) → length (compact rounds i j str).1 ≡ length str
unfolding compact
length-compact zero i j str = refl
length-compact (suc rounds) i j str = elim (Bool-cases (is_vowel (nth str i))) [
  | inl vowel ↦ rw (compact, vowel) (length-compact rounds (suc i) j str)
  | inr other ↦
      rw (compact, other)
        (length-compact rounds (suc i) (suc j) (set str j (nth str i))
          ∙ length-set str j (nth str i))
]

length-remove_vowels : (str : List ℕ) → length (remove_vowels str) ≡ length str
unfolding remove_vowels terminate
length-remove_vowels str =
    let (j, kept) = compact buffer_size 0 0 str in
    elim (Bool-cases (ltb j buffer_size)) [
      | inl room ↦ rw room (length-set kept j 0 ∙ length-compact buffer_size 0 0 str)
      | inr full ↦ rw full (length-compact buffer_size 0 0 str)
    ]

-- A client sends a text of at most 100 characters without its NUL, which the child that answers
-- reads whole, and the client reads as many characters as it has sent: what it prints is its text
-- without the vowels, and behind it, where vowels were taken out, what the buffer of the child
-- held before, in as many characters as the text has.
pub exchange-text :
    (msg before : List ℕ) (wrote sent : ℕ)
    → IsText msg
    → length msg ≤ buffer_size
    → length before ≡ buffer_size
    → (answer : List ℕ) × (respond (pos (length msg)) msg before (pos wrote) ≡ (pos 0, some answer))
      × (print_answer msg (pos sent) (pos (length msg)) answer
          ≡ some (take (length msg) (keep consonant (msg ++ text (drop (length msg) before)))))
unfolding respond print_answer
exchange-text msg before wrote sent plain short whole =
    let n : ℕ = length msg in
    let rest : List ℕ = drop n before in
    let read_whole : length (msg ++ rest) ≡ buffer_size =
      length-append msg rest ∙ omega (arith, length-drop n before, whole, short) in
    let answer : List ℕ = remove_vowels (msg ++ rest) in
    let full : length answer ≡ buffer_size = length-remove_vowels (msg ++ rest) ∙ read_whole in
    let stored : length (take n answer) ≡ n = length-take n answer (omega (arith, full)) in
    (
      answer,
      refl,
      ap some (
          ap (λ k. text (take n answer ++ drop k (msg ++ 0 ∷ []))) stored
          ∙ ap (λ end. text (take n answer ++ end)) (drop-last msg)
          ∙ text-take n answer
          ∙ ap (take n) (
              remove_vowels-text (msg ++ rest) read_whole
              ∙ ap (keep consonant) (text-append msg rest plain))),
    )
