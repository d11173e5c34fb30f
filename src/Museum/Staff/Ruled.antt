-- ===== src/Museum/Staff/Ruled.antt =====
-- museum/src/admin.c: what the administrator's numbers come to.
use mathlib.Core.List.{Memᴰ}
use mathlib.Core.List.Memᴰ as Memᴰ
use mathlib.Core.Bool.{true≢false}
use sistemas_distribuid.Base.{
  ℤ, pos, ◌=ℤ◌, =ℤ_iff, ◌≡◌, refl, sym, ◌∙◌, inl, inr, ◌⊎◌, Bool, Bool-cases, true, false, List, [],
  ◌∷◌, if◌then◌else◌,
}
use sistemas_distribuid.Museum.{Hall, admin}
use sistemas_distribuid.Museum.Doors.{get_shm}
use sistemas_distribuid.Museum.Doors.Answered.{get_shm-IsBrief}
use sistemas_distribuid.Museum.Processes.{museum_open_shm}
use sistemas_distribuid.Museum.Staff.{menu, main_admin}
use sistemas_distribuid.Os.{Os, Process}
use sistemas_distribuid.Os.Proc.{Result, ret, exits, fresh}
use sistemas_distribuid.Os.Calm.{next-Brief}

-- The numbers that count: those before the first 3.
abbrev before_exit : List ℤ → List ℤ
before_exit [] = []
before_exit (o ∷ os) = if o =ℤ pos 3 then [] else o ∷ before_exit os

-- Whether the museum is open: the last 1 or 2 says it, and where there is none, nothing changes.
abbrev pub verdict : Bool → List ℤ → Bool
verdict b [] = b
verdict b (o ∷ os) = verdict (if o =ℤ pos 1 then true else if o =ℤ pos 2 then false else b) os

admin-is_open :
    (o : ℤ) (h : Hall)
    → admin o h
      ≡ record h { is_open = if o =ℤ pos 1 then true else if o =ℤ pos 2 then false else h.is_open }
unfolding admin
admin-is_open o h = elim (Bool-cases (o =ℤ pos 1)) [
  | inl opens ↦ rw opens refl
  | inr other ↦ rw other (elim (Bool-cases (o =ℤ pos 2)) [
    | inl closes ↦ rw closes refl
    | inr neither ↦ rw neither refl
  ])
]

menu-out : (typed : List ℤ) (h : Hall) (s : Process) → menu (pos 3) typed h s ≡ (ret h, s)
unfolding menu
menu-out [] h s = refl
menu-out (o ∷ os) h s = refl

clash {ℓ} : {A : Type ℓ} (o : ℤ) → pos 3 ≡ o → (o =ℤ pos 3) ≡ false → A
clash o e other = absurd (true≢false (sym ((=ℤ_iff o (pos 3)).1 (sym e)) ∙ other))

menu_lem :
    (option : ℤ) (typed : List ℤ) (h : Hall) (s : Process)
    → (option =ℤ pos 3) ≡ false
    → Memᴰ (pos 3) typed
    → menu option typed h s
      ≡ (ret (record h { is_open = verdict h.is_open (before_exit typed) }), s)
unfolding menu
menu_lem option [] h s other m = absurd (Memᴰ.not-nil m)
menu_lem option (o ∷ os) h s other m =
    rw (other, admin-is_open o h)
      (elim (Bool-cases (o =ℤ pos 3)) [
        | inl out ↦ let e : o ≡ pos 3 = (=ℤ_iff o (pos 3)).0 out in rw e (menu-out os h s)
        | inr on ↦ elim (Memᴰ.cases_cons m) [
          | inl e ↦ clash o e on
          | inr later ↦ rw on (menu_lem o os _ s on later)
        ]
      ])

-- How `main` can be over.
abbrev IsRuled : Hall → List ℤ → Result Hall × Process → Type 0
IsRuled h typed x =
    ((code : ℤ) × (x.0 ≡ exits code))
    ⊎ (x.0 ≡ ret (record h { is_open = verdict h.is_open (before_exit typed) }))

-- Where the administrator types a 3 at some time, and option does not happen to hold 3 before it is
-- set, main of the administrator exits at its start or returns; then the last 1 or 2 before the
-- first 3 has decided if the museum is open, any other number has changed nothing, and the places
-- are as they were.
main_admin-IsRuled :
    (os : Os) (option : ℤ) (typed : List ℤ) (h : Hall)
    → (option =ℤ pos 3) ≡ false
    → Memᴰ (pos 3) typed
    → IsRuled h typed (main_admin os option typed h fresh)
unfolding main_admin sistemas_distribuid.Museum.Ipcs.unmap
main_admin-IsRuled os option typed h other m =
    next-Brief (IsRuled h typed) (get_shm os museum_open_shm fresh) _
      (get_shm-IsBrief os museum_open_shm fresh) (λ c s. inl (c, refl))
      (λ shm s. rw (menu_lem option typed h s other m) (inr refl))
