-- ===== src/Sockets/Vowels.antt =====
-- sockets/server.c: `remove_vowels`, over the text in the buffer.
use mathlib.Core.List.{append-nil, append_assoc}
use sistemas_distribuid.Base.{
  text, some, pos, length-drop, ltb, drop-length, ℕ, zero, suc, ◌+◌, ◌≤◌, ◌<◌, ◌≡◌, refl, ap, sym,
  ◌∙◌, Bool-cases, inl, inr, Bool, true, false, not, List, [], ◌∷◌, ◌++◌, length, length-append,
  set, drop, keep, arith, ◌==◌,
}
use sistemas_distribuid.Sockets.{
  nth, is_vowel, compact, remove_vowels, terminate, respond, buffer_size,
}

abbrev pub consonant : ℕ → Bool
consonant c = not (is_vowel c)

nth-drop : (str : List ℕ) (i : ℕ) → i < length str → drop i str ≡ nth str i ∷ drop (suc i) str
nth-drop [] i h = absurd (omega arith)
nth-drop (c ∷ cs) zero h = refl
nth-drop (c ∷ cs) (suc i) h = nth-drop cs i (omega arith)

-- The buffer during the loop: the kept characters, and behind them what stood there at first.
abbrev packed : List ℕ → List ℕ → List ℕ
packed kept str = kept ++ drop (length kept) str

nth-packed :
    (kept str : List ℕ) (i : ℕ)
    → length kept ≤ i
    → i < length str
    → nth (packed kept str) i ≡ nth str i
nth-packed [] str i h k = refl
nth-packed (c ∷ kept) [] i h k = elim k [ ]
nth-packed (c ∷ kept) (d ∷ str) zero h k = elim h [ ]
nth-packed (c ∷ kept) (d ∷ str) (suc i) h k = nth-packed kept str i (omega arith) (omega arith)

set-packed :
    (kept str : List ℕ) (c : ℕ)
    → length kept < length str
    → set (packed kept str) (length kept) c ≡ packed (kept ++ c ∷ []) str
set-packed [] [] c h = elim h [ ]
set-packed [] (d ∷ str) c h = refl
set-packed (k ∷ kept) [] c h = elim h [ ]
set-packed (k ∷ kept) (d ∷ str) c h = ap (◌∷◌ k) (set-packed kept str c (omega arith))

-- What the loop leaves, from a position on.
abbrev finished : List ℕ → List ℕ → ℕ × List ℕ
finished str all = (length all, packed all str)

compact-vowel :
    (rounds i j c : ℕ) (str : List ℕ)
    → nth str i ≡ c
    → is_vowel c ≡ true
    → compact (suc rounds) i j str ≡ compact rounds (suc i) j str
unfolding compact
compact-vowel rounds i j c str e h = rw (compact, e, h) refl

compact-consonant :
    (rounds i j c : ℕ) (str : List ℕ)
    → nth str i ≡ c
    → is_vowel c ≡ false
    → compact (suc rounds) i j str ≡ compact rounds (suc i) (suc j) (set str j c)
unfolding compact
compact-consonant rounds i j c str e h =
    rw (compact, e, h) (ap (λ k. compact rounds (suc i) (suc j) (set str j k)) e)

compact-zero : (i j : ℕ) (str : List ℕ) → compact 0 i j str ≡ (j, str)
unfolding compact
compact-zero i j str = refl

compact_lem :
    (rounds i : ℕ) (kept str : List ℕ)
    → length kept ≤ i
    → rounds + i ≡ length str
    → compact rounds i (length kept) (packed kept str)
      ≡ finished str (kept ++ keep consonant (drop i str))
compact_lem zero i kept str h e =
    compact-zero i (length kept) (packed kept str)
    ∙ ap (finished str) (sym (append-nil kept))
    ∙ ap (λ k. finished str (kept ++ keep consonant k)) (sym (drop-length i str (omega arith)))
compact_lem (suc rounds) i kept str h e =
    let c : ℕ = nth str i in
    let here : nth (packed kept str) i ≡ c = nth-packed kept str i h (omega arith) in
    let rest : drop i str ≡ c ∷ drop (suc i) str = nth-drop str i (omega arith) in
    elim (Bool-cases (is_vowel c)) [
      | inl vowel ↦
          compact-vowel rounds i (length kept) c (packed kept str) here vowel
          ∙ compact_lem rounds (suc i) kept str (omega arith) (omega arith)
          ∙ ap (λ k. finished str (kept ++ k)) (sym (rw (rest, vowel) refl))
      | inr other ↦
          let one : length (kept ++ c ∷ []) ≡ suc (length kept) =
            length-append kept (c ∷ []) ∙ omega arith in
          let more =
            compact_lem rounds (suc i) (kept ++ c ∷ []) str (omega (arith, one)) (omega arith) in
          compact-consonant rounds i (length kept) c (packed kept str) here other
          ∙ rw (set-packed kept str c (omega arith), sym one) more
          ∙ ap (finished str) (append_assoc kept (c ∷ []) (keep consonant (drop (suc i) str)))
          ∙ ap (λ k. finished str (kept ++ k)) (sym (rw (rest, other) refl))
    ]

text-ended : (cs ds : List ℕ) → text (cs ++ 0 ∷ ds) ≡ text cs
text-ended [] ds = refl
text-ended (c ∷ cs) ds = elim (Bool-cases (c == 0)) [
  | inl nul ↦ rw nul refl
  | inr other ↦ rw other (ap (◌∷◌ c) (text-ended cs ds))
]

-- NUL is no vowel, so that the text is cut at the same place.
text-keep : (cs : List ℕ) → text (keep consonant cs) ≡ keep consonant (text cs)
text-keep [] = refl
text-keep (c ∷ cs) = elim (Bool-cases (c == 0)) [
  | inl nul ↦ let e : c ≡ 0 = ground arith in rw e refl
  | inr other ↦ elim (Bool-cases (is_vowel c)) [
    | inl vowel ↦ rw (other, vowel) (text-keep cs)
    | inr kept ↦ rw (other, kept, other) (ap (◌∷◌ c) (text-keep cs))
  ]
]

length-keep : (cs : List ℕ) → length (keep consonant cs) ≤ length cs
length-keep [] = omega arith
length-keep (c ∷ cs) = elim (Bool-cases (is_vowel c)) [
  | inl vowel ↦ rw vowel (omega (arith, length-keep cs))
  | inr other ↦ rw other (omega (arith, length-keep cs))
]

terminate-text :
    (kept str : List ℕ)
    → length str ≡ buffer_size
    → length kept ≤ buffer_size
    → text (terminate (finished str kept)) ≡ text kept
unfolding terminate
terminate-text kept str e h = elim (Bool-cases (ltb (length kept) buffer_size)) [
  | inl room ↦
      let rest : List ℕ = drop (length (kept ++ 0 ∷ [])) str in
      rw (room, set-packed kept str 0 (ground arith), append_assoc kept (0 ∷ []) rest)
        (text-ended kept rest)
  | inr full ↦
      let none_left : drop (length kept) str ≡ [] = drop-length (length kept) str (ground arith) in
      rw (full, none_left, append-nil kept) refl
]

-- The text in the buffer, without its vowels.
pub remove_vowels-text :
    (str : List ℕ) → length str ≡ buffer_size → text (remove_vowels str) ≡ keep consonant (text str)
unfolding remove_vowels
remove_vowels-text str e =
    let kept : List ℕ = keep consonant str in
    ap (λ x. text (terminate x)) (compact_lem buffer_size 0 [] str (omega arith) (omega (arith, e)))
    ∙ terminate-text kept str e (omega (arith, e, length-keep str))
    ∙ text-keep str

-- Where read and write succeed, the loop that compacts the buffer in place answers the client with
-- a text that is what the buffer held up to its first NUL, without the vowels, whether the client
-- has sent a NUL or what the buffer held before goes on behind its bytes.
respond-text :
    (read write : ℕ) (received before : List ℕ)
    → length before ≡ buffer_size
    → length received ≤ buffer_size
    → (answer : List ℕ) × (respond (pos read) received before (pos write) ≡ (pos 0, some answer))
      × (text answer ≡ keep consonant (text (received ++ drop (length received) before)))
unfolding respond
respond-text read write received before e h =
    let rest : List ℕ = drop (length received) before in
    let whole : length (received ++ rest) ≡ buffer_size =
      length-append received rest ∙ omega (arith, length-drop (length received) before, e, h) in
    (remove_vowels (received ++ rest), refl, remove_vowels-text (received ++ rest) whole)
