-- ===== src/Museum/People/Generated.antt =====
-- museum/src/personGen.c: how `main` ends.
use mathlib.Core.List.Memᴰ as Memᴰ
use sistemas_distribuid.Base.{
  ℕ, zero, suc, ◌+◌, ◌≤◌, ℤ, pos, is_neg, ◌=ℤ◌, ◌≡◌, refl, not, inl, inr, ◌⊎◌, Bool-cases, [],
  length, arith,
}
use sistemas_distribuid.Os.{Os, Process, Program, person, fork, log, graceful_quit}
use sistemas_distribuid.Os as Os
use sistemas_distribuid.Os.Proc.{Result, ret, exits, becomes, fresh, next}
use sistemas_distribuid.Os.Calls.{execl}
use sistemas_distribuid.Os.Keeps.{IsSignalled}
use sistemas_distribuid.Os.Children.{IsParent, IsParent-IsStable, forked-IsParent}
use sistemas_distribuid.Museum.People.{person_child, main_generator}

-- How `main` can be over.
abbrev IsGenerated : Result (Unit {0}) × Process → Type 0
IsGenerated x =
    ((code : ℤ) × (x.0 ≡ exits code)) ⊎ ((x.0 ≡ becomes person) ⊎ ((x.0 ≡ ret tt) × IsParent x.1))

-- A child becomes a person, or exits.
child-IsGenerated :
    (os : Os) (f : Unit {0} → Process → Result (Unit {0}) × Process) (s : Process)
    → IsGenerated (next (person_child os s) f)
unfolding person_child execl
child-IsGenerated os f s = elim (Bool-cases (is_neg (os s.history (Os.execl person [])))) [
  | inl refused ↦ rw refused (inl (_, refl))
  | inr done ↦ rw done (inr (inl refl))
]

loop-IsGenerated :
    (os : Os) (n fuel : ℕ) (s : Process)
    → IsSignalled os n
    → n ≤ fuel + length s.history
    → IsParent s
    → IsGenerated (main_generator os (suc fuel) s)
unfolding main_generator
loop-IsGenerated os n zero s signalled made h =
    rw (signalled s.history (omega arith))
      (inr (inr (refl, IsParent-IsStable s graceful_quit _ refl h)))
loop-IsGenerated os n (suc fuel) s signalled made h =
    let q : ℤ = os s.history graceful_quit in
    let s1 : Process = log graceful_quit q s in
    let r : ℤ = os s1.history fork in
    let s2 : Process = log fork r s1 in
    let h1 = IsParent-IsStable s graceful_quit q refl h in
    elim (Bool-cases (not (q =ℤ pos 0))) [
      | inl quit ↦ rw quit (inr (inr (refl, h1)))
      | inr on ↦ rw on (elim (Bool-cases (is_neg r)) [
        | inl refused ↦ rw refused (inl (_, refl))
        | inr made_one ↦ rw made_one (elim (Bool-cases (r =ℤ pos 0)) [
          | inl child ↦ rw child (child-IsGenerated os (λ _. main_generator os (suc fuel)) s2)
          | inr parent ↦ rw parent (
              loop-IsGenerated os n fuel s2 signalled (omega arith)
                (forked-IsParent s1 r made_one parent h1))
        ])
      ])
    ]

-- Where the signal arrives before main of the generator has made n calls, n + 1 rounds of its loop
-- are enough: it exits, or it has become a person, or it returns, and then it is the process that
-- made all the others: no child of it gets out of its branch, so that none makes persons of its
-- own.
main-IsGenerated :
    (os : Os) (n : ℕ) → IsSignalled os n → IsGenerated (main_generator os (suc n) fresh)
main-IsGenerated os n signalled =
    loop-IsGenerated os n n fresh signalled (omega arith) (λ r m. absurd (Memᴰ.not-nil m))
