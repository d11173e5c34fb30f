-- ===== src/Base/Keyed.antt =====
-- Linear search in a table whose entries carry an integer key: the loops of broker_id.c and
-- global_id.c, which stop at the first entry with the key.
use Prim.Native.Nat.{ℕ, suc, ◌+◌, ◌<◌}
use mathlib.Core.Path.{◌≡◌, refl, ap}
use mathlib.Core.Logic.{◌≢◌, ◌⊎◌, inl, inr}
use mathlib.Core.List.{List, [], ◌∷◌, ◌++◌}
use mathlib.Core.Option.{Option, none, some}
use native.Mathlib.Omega.{arith}
use sistemas_distribuid.Base.Tests.{if◌then◌else◌, Bool-cases}
use sistemas_distribuid.Base.Int.{ℤ, ◌=ℤ◌, =ℤ_iff}
use sistemas_distribuid.Base.Lists.{length, remove_at}

module _ {A : Type 0} (key : A → ℤ) where
  unfoldable pub find_first : ℤ → List A → Option A
  find_first k [] = none
  find_first k (x ∷ xs) = if key x =ℤ k then some x else find_first k xs

  -- The index of that entry, counted from `i`.
  unfoldable pub find_pos : ℤ → ℕ → List A → Option ℕ
  find_pos k i [] = none
  find_pos k i (x ∷ xs) = if key x =ℤ k then some i else find_pos k (suc i) xs

  unfoldable pub erase_first : ℤ → List A → List A
  erase_first k [] = []
  erase_first k (x ∷ xs) = if key x =ℤ k then xs else x ∷ erase_first k xs

  -- No key occurs twice.
  abbrev pub Distinct : List A → Type 0
  Distinct [] = Unit {0}
  Distinct (x ∷ xs) = (find_first (key x) xs ≡ none) × Distinct xs

  pub find_first-key : (k : ℤ) (xs : List A) {a : A} → find_first k xs ≡ some a → key a ≡ k
  unfolding find_first
  find_first-key k [] h = absurd (ground arith)
  find_first-key k (x ∷ xs) {a} h = ground (arith, =ℤ_iff (key x) k, find_first-key k xs {a = a})

  -- The search for the index finds nothing exactly when the search for the entry does; otherwise
  -- the index is in range and removing there is removing the first entry with the key.
  pub find_pos-cases :
      (k : ℤ) (i : ℕ) (xs : List A)
      → ((find_pos k i xs ≡ none) × (find_first k xs ≡ none) × (erase_first k xs ≡ xs))
        ⊎ ((j : ℕ) × (find_pos k i xs ≡ some (i + j))
            × (j < length xs)
            × (remove_at j xs ≡ erase_first k xs)
            × (find_first k xs ≢ none))
  unfolding find_pos find_first erase_first
  find_pos-cases k i [] = inl (refl, refl, refl)
  find_pos-cases k i (x ∷ xs) = elim (Bool-cases (key x =ℤ k)) [
    | inl e ↦ rw e (inr (0, ground arith, omega arith, refl, λ h. cc))
    | inr e ↦ rw e (elim (find_pos-cases k (suc i) xs) [
      | inl (a, b, c) ↦ inl (a, b, ap (◌∷◌ x) c)
      | inr (j, a, b, c, d) ↦ inr (suc j, ground arith, omega arith, ap (◌∷◌ x) c, d)
    ])
  ]

  pub find_first-append :
      (k : ℤ) (xs : List A) (y : A)
      → find_first k (xs ++ y ∷ [])
        ≡ elim (find_first k xs) [ none ↦ (if key y =ℤ k then some y else none) | some e ↦ some e ]
  unfolding find_first
  find_first-append k [] y = refl
  find_first-append k (x ∷ xs) y = ground (arith, find_first-append k xs y)

  pub erase_first-append :
      (k : ℤ) (xs : List A) (y : A)
      → find_first k xs ≡ none
      → key y ≡ k
      → erase_first k (xs ++ y ∷ []) ≡ xs
  unfolding find_first erase_first
  erase_first-append k [] y h e = ground (arith, =ℤ_iff (key y) k)
  erase_first-append k (x ∷ xs) y h e = ground (arith, erase_first-append k xs y)

  find_first-erase_other :
      (j k : ℤ) (xs : List A) → j ≢ k → find_first j (erase_first k xs) ≡ find_first j xs
  unfolding find_first erase_first
  find_first-erase_other j k [] h = refl
  find_first-erase_other j k (x ∷ xs) h =
      ground (arith, =ℤ_iff (key x) k, =ℤ_iff (key x) j, find_first-erase_other j k xs h)

  pub find_first-erase_self :
      (k : ℤ) (xs : List A) → Distinct xs → find_first k (erase_first k xs) ≡ none
  unfolding find_first erase_first
  find_first-erase_self k [] d = refl
  find_first-erase_self k (x ∷ xs) d = elim (Bool-cases (key x =ℤ k)) [
    | inl e ↦ rw (e, ← (=ℤ_iff (key x) k).0 e) d.0
    | inr e ↦ rw (e, e) (find_first-erase_self k xs d.1)
  ]

  find_first-erase_none :
      (j k : ℤ) (xs : List A) → find_first j xs ≡ none → find_first j (erase_first k xs) ≡ none
  unfolding find_first erase_first
  find_first-erase_none j k [] h = refl
  find_first-erase_none j k (x ∷ xs) h = ground (arith, find_first-erase_none j k xs)

  pub Distinct-erase : (k : ℤ) (xs : List A) → Distinct xs → Distinct (erase_first k xs)
  unfolding erase_first
  Distinct-erase k [] d = tt
  Distinct-erase k (x ∷ xs) d =
      ground (arith, Distinct-erase k xs d.1, find_first-erase_none (key x) k xs d.0)

  pub Distinct-append :
      (xs : List A) (y : A) → find_first (key y) xs ≡ none → Distinct xs → Distinct (xs ++ y ∷ [])
  unfolding find_first
  Distinct-append [] y h d = (refl, tt)
  Distinct-append (x ∷ xs) y h d = (
    ground (arith, find_first-append (key x) xs y, =ℤ_iff (key x) (key y), =ℤ_iff (key y) (key x)),
    Distinct-append xs y (ground arith) d.1,
  )

  pub find_first-erase :
      (j k : ℤ) (xs : List A)
      → Distinct xs
      → find_first j (erase_first k xs) ≡ (if k =ℤ j then none else find_first j xs)
  find_first-erase j k xs d = elim (Bool-cases (k =ℤ j)) [
    | inl same ↦ rw (same, ← (=ℤ_iff k j).0 same) (find_first-erase_self k xs d)
    | inr differ ↦ rw differ (find_first-erase_other j k xs (λ e. ground (arith, =ℤ_iff k j)))
  ]
