-- ===== src/Base/Lists.antt =====
-- Lists measured and indexed by native numbers, and the array loop that closes a gap.
use Prim.Native.Nat.{ℕ, zero, suc, ◌+◌, ◌-◌, ◌≤◌, ◌<◌}
use mathlib.Core.Path.{◌≡◌, refl, ap, ◌∙◌}
use mathlib.Core.List.{List, [], ◌∷◌, ◌++◌}
use mathlib.Core.Option.{Option, none, some}
use mathlib.Core.Logic.{inl, inr}
use sistemas_distribuid.Base.Tests.{Option-cases, if◌then◌else◌}
use mathlib.Core.Bool.{Bool}
use native.Mathlib.Omega.{arith}

module _ {ℓ} {A : Type ℓ} where
  abbrev pub length : List A → ℕ
  length [] = 0
  length (x ∷ xs) = suc (length xs)

  abbrev pub get_elem? : List A → ℕ → Option A
  get_elem? [] i = none
  get_elem? (x ∷ xs) zero = some x
  get_elem? (x ∷ xs) (suc i) = get_elem? xs i

  -- A write out of bounds changes nothing.
  abbrev pub set : List A → ℕ → A → List A
  set [] i v = []
  set (x ∷ xs) zero v = v ∷ xs
  set (x ∷ xs) (suc i) v = x ∷ set xs i v

  abbrev pub take : ℕ → List A → List A
  take zero xs = []
  take (suc n) [] = []
  take (suc n) (x ∷ xs) = x ∷ take n xs

  abbrev pub replicate : ℕ → A → List A
  replicate zero a = []
  replicate (suc n) a = a ∷ replicate n a

  abbrev pub remove_at : ℕ → List A → List A
  remove_at i [] = []
  remove_at zero (x ∷ xs) = xs
  remove_at (suc i) (x ∷ xs) = x ∷ remove_at i xs

  pub length-append : (xs ys : List A) → length (xs ++ ys) ≡ length xs + length ys
  length-append [] ys = omega arith
  length-append (x ∷ xs) ys = omega (arith, length-append xs ys)

  pub length-set : (xs : List A) (i : ℕ) (v : A) → length (set xs i v) ≡ length xs
  length-set [] i v = refl
  length-set (x ∷ xs) zero v = refl
  length-set (x ∷ xs) (suc i) v = ap suc (length-set xs i v)

  pub length-take : (n : ℕ) (xs : List A) → n ≤ length xs → length (take n xs) ≡ n
  length-take zero xs h = refl
  length-take (suc n) [] h = omega arith
  length-take (suc n) (x ∷ xs) h = omega (arith, length-take n xs)

  -- A write right behind the part that is read appends to that part.
  pub take-set :
      (n : ℕ) (xs : List A) (v : A)
      → n < length xs
      → take (suc n) (set xs n v) ≡ take n xs ++ v ∷ []
  take-set zero [] v h = elim h [ ]
  take-set zero (x ∷ xs) v h = refl
  take-set (suc n) [] v h = elim h [ ]
  take-set (suc n) (x ∷ xs) v h = ap (◌∷◌ x) (take-set n xs v (omega arith))

  -- `xs[j] = xs[i]`
  abbrev move : List A → ℕ → ℕ → List A
  move xs i j = elim (get_elem? xs i) [ none ↦ xs | some a ↦ set xs j a ]

  -- for (i = suc j; rounds > 0; i++) xs[i - 1] = xs[i];
  unfoldable pub shift_down : ℕ → ℕ → List A → List A
  shift_down zero j xs = xs
  shift_down (suc rounds) j xs = shift_down rounds (suc j) (move xs (suc j) j)

  shift_down-cons :
      (rounds j : ℕ) (x : A) (xs : List A)
      → shift_down rounds (suc j) (x ∷ xs) ≡ x ∷ shift_down rounds j xs
  unfolding shift_down
  shift_down-cons zero j x xs = refl
  shift_down-cons (suc rounds) j x xs = elim (Option-cases (get_elem? xs (suc j))) [
    | inl e ↦ rw (e, move) (shift_down-cons rounds (suc j) x xs)
    | inr (a, e) ↦ rw (e, move) (shift_down-cons rounds (suc j) x (set xs j a))
  ]

  pub length-shift_down : (rounds j : ℕ) (xs : List A) → length (shift_down rounds j xs) ≡ length xs
  unfolding shift_down
  length-shift_down zero j xs = refl
  length-shift_down (suc rounds) j xs = elim (Option-cases (get_elem? xs (suc j))) [
    | inl e ↦ rw (e, move) (length-shift_down rounds (suc j) xs)
    | inr (a, e) ↦ rw (e, move) (length-shift_down rounds (suc j) (set xs j a) ∙ length-set xs j a)
  ]

  shift_front :
      (rounds : ℕ) (xs : List A)
      → rounds < length xs
      → take rounds (shift_down rounds 0 xs) ≡ remove_at 0 (take (suc rounds) xs)
  unfolding shift_down
  shift_front zero [] h = refl
  shift_front zero (x ∷ xs) h = refl
  shift_front (suc rounds) [] h = elim h [ ]
  shift_front (suc rounds) (x ∷ []) h = absurd (omega arith)
  shift_front (suc rounds) (x ∷ y ∷ xs) h =
      rw (shift_down-cons rounds 0 y (y ∷ xs))
        (ap (◌∷◌ y) (shift_front rounds (y ∷ xs) (omega arith)))

  -- The loop over the rest of the array removes the entry at `j` from the part that is in use.
  take-shift_down :
      (rounds j : ℕ) (xs : List A)
      → j + rounds < length xs
      → take (j + rounds) (shift_down rounds j xs) ≡ remove_at j (take (suc (j + rounds)) xs)
  take-shift_down rounds zero xs h =
      let e : 0 + rounds ≡ rounds = omega arith in rw e (shift_front rounds xs (omega arith))
  take-shift_down rounds (suc j) [] h = elim h [ ]
  take-shift_down rounds (suc j) (x ∷ xs) h =
      let e : suc j + rounds ≡ suc (j + rounds) = omega arith in
      rw (e, shift_down-cons rounds j x xs) (ap (◌∷◌ x) (take-shift_down rounds j xs (omega arith)))

  -- The same for `n` entries in use: `for (i = j + 1; i < n; i++) xs[i - 1] = xs[i];`
  pub shift_down-remove_at :
      (n j : ℕ) (xs : List A)
      → j < n
      → n ≤ length xs
      → take (n - 1) (shift_down (n - (j + 1)) j xs) ≡ remove_at j (take n xs)
  shift_down-remove_at n j xs h k =
      let e : n - 1 ≡ j + (n - (j + 1)) = omega arith in
      rw e (
        take-shift_down (n - (j + 1)) j xs (omega arith)
        ∙ ap (λ m. remove_at j (take m xs)) {x = suc (j + (n - (j + 1)))} (omega arith))

module _ {ℓ} {A : Type ℓ} where
  abbrev pub drop : ℕ → List A → List A
  drop zero xs = xs
  drop (suc n) [] = []
  drop (suc n) (x ∷ xs) = drop n xs

  pub take-add : (n m : ℕ) (xs : List A) → take n xs ++ take m (drop n xs) ≡ take (n + m) xs
  take-add zero m xs = let e : 0 + m ≡ m = omega arith in rw e
  take-add (suc n) m (x ∷ xs) =
      let e : suc n + m ≡ suc (n + m) = omega arith in rw e (ap (◌∷◌ x) (take-add n m xs))
  take-add (suc n) zero [] = let e : suc n + zero ≡ suc (n + zero) = omega arith in rw e
  take-add (suc n) (suc m) [] = let e : suc n + suc m ≡ suc (n + suc m) = omega arith in rw e

  pub drop-add : (n m : ℕ) (xs : List A) → drop m (drop n xs) ≡ drop (n + m) xs
  drop-add zero m xs = let e : 0 + m ≡ m = omega arith in rw e
  drop-add (suc n) m (x ∷ xs) =
      let e : suc n + m ≡ suc (n + m) = omega arith in rw e (drop-add n m xs)
  drop-add (suc n) zero [] = let e : suc n + zero ≡ suc (n + zero) = omega arith in rw e
  drop-add (suc n) (suc m) [] = let e : suc n + suc m ≡ suc (n + suc m) = omega arith in rw e

  pub take-length : (n : ℕ) (xs : List A) → length xs ≤ n → take n xs ≡ xs
  take-length zero [] h = refl
  take-length zero (x ∷ xs) h = elim h [ ]
  take-length (suc n) [] h = refl
  take-length (suc n) (x ∷ xs) h = ap (◌∷◌ x) (take-length n xs (omega arith))

  take-append : (xs ys : List A) → take (length xs) (xs ++ ys) ≡ xs
  take-append [] ys = refl
  take-append (x ∷ xs) ys = ap (◌∷◌ x) (take-append xs ys)

  drop-append : (xs ys : List A) → drop (length xs) (xs ++ ys) ≡ ys
  drop-append [] ys = refl
  drop-append (x ∷ xs) ys = drop-append xs ys

  pub length-drop : (n : ℕ) (xs : List A) → length (drop n xs) ≡ length xs - n
  length-drop zero xs = omega arith
  length-drop (suc n) [] = omega arith
  length-drop (suc n) (x ∷ xs) = omega (arith, length-drop n xs)

  pub drop-length : (n : ℕ) (xs : List A) → length xs ≤ n → drop n xs ≡ []
  drop-length zero [] h = refl
  drop-length zero (x ∷ xs) h = elim h [ ]
  drop-length (suc n) [] h = refl
  drop-length (suc n) (x ∷ xs) h = drop-length n xs (omega arith)

  pub take-append_le : (n : ℕ) (xs ys : List A) → n ≤ length xs → take n (xs ++ ys) ≡ take n xs
  take-append_le zero xs ys h = refl
  take-append_le (suc n) [] ys h = elim h [ ]
  take-append_le (suc n) (x ∷ xs) ys h = ap (◌∷◌ x) (take-append_le n xs ys (omega arith))

  pub drop-append_le :
      (n : ℕ) (xs ys : List A) → n ≤ length xs → drop n (xs ++ ys) ≡ drop n xs ++ ys
  drop-append_le zero xs ys h = refl
  drop-append_le (suc n) [] ys h = elim h [ ]
  drop-append_le (suc n) (x ∷ xs) ys h = drop-append_le n xs ys (omega arith)

module _ {ℓ} {A : Type ℓ} where
  -- The entries that pass the test, in order.
  abbrev pub keep : (A → Bool) → List A → List A
  keep test [] = []
  keep test (x ∷ xs) = if test x then x ∷ keep test xs else keep test xs

  -- The first entry that passes the test.
  abbrev pub first : (A → Bool) → List A → Option A
  first test [] = none
  first test (x ∷ xs) = if test x then some x else first test xs
