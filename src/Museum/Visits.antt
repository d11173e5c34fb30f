-- ===== src/Museum/Visits.antt =====
-- The museum with its visitors, person.c, as a system of steps: each takes one visitor on, or is
-- the administrator's.
use sistemas_distribuid.Base.{
  ℕ, ◌+◌, ◌-◌, ◌≡◌, refl, sym, ◌∙◌, ◌⊎◌, inl, inr, ℤ, ◌=ℤ◌, ltb, false, ◌&&◌, if◌then◌else◌,
  Bool-cases, arith, subst, List, [], ◌∷◌, ◌++◌, Option, some, Outcome, ret,
}
use sistemas_distribuid.Ipc.Kernel.{Calls, IsUp, p-up, v-up}
use sistemas_distribuid.Museum.{
  Hall, museum_cap, entrance_request, exit_request, accept, reject, create_museum, entrance_door,
  exit_door, admin,
}

-- Where a visitor is: waiting for the entrance's answer, inside, waiting for the exit's, or out.
pub data Phase : Type 0 where
  asking inside leaving out : Phase

pub record Museum : Type 0 where
  pub hall : Hall
  pub people : List Phase

abbrev pub places : Phase → ℕ
places asking = 0
places inside = 1
places leaving = 1
places out = 0

-- The visitors that have a place.
unfoldable pub occupants : List Phase → ℕ
occupants [] = 0
occupants (x ∷ xs) = places x + occupants xs

-- `if (msg.type == ACCEPT)` of person.c
abbrev pub entered : ℤ → Phase
entered r = if r =ℤ accept then inside else out

pub data Step (k : Calls) : Museum → Museum → Type 0 where
  arrive :
      (h : Hall) (xs : List Phase)
      → Step k (record { hall = h; people = xs }) (record { hall = h; people = asking ∷ xs })
  enter :
      (h h' : Hall) (xs ys : List Phase) (r : ℤ)
      → entrance_door k entrance_request h ≡ ret (some r, h')
      → Step k
          (record { hall = h; people = xs ++ asking ∷ ys })
          (record { hall = h'; people = xs ++ entered r ∷ ys })
  go :
      (h : Hall) (xs ys : List Phase)
      → Step k
          (record { hall = h; people = xs ++ inside ∷ ys })
          (record { hall = h; people = xs ++ leaving ∷ ys })
  leave :
      (h h' : Hall) (xs ys : List Phase) (r : ℤ)
      → exit_door k exit_request h ≡ ret (some r, h')
      → Step k
          (record { hall = h; people = xs ++ leaving ∷ ys })
          (record { hall = h'; people = xs ++ out ∷ ys })
  set_open :
      (h : Hall) (xs : List Phase) (option : ℤ)
      → Step k (record { hall = h; people = xs }) (record { hall = admin option h; people = xs })

pub data Reach (k : Calls) : Museum → Type 0 where
  start : Reach k (record { hall = create_museum; people = [] })
  next : {m m' : Museum} → Reach k m → Step k m m' → Reach k m'

-- The places that are left and those that are taken make up the museum's capacity.
pub record IsCounted (m : Museum) : Type 0 where
  pub free : m.hall.sem ≡ 1
  pub whole : m.hall.cap + occupants m.people ≡ museum_cap

occupants-append :
    (xs ys : List Phase) (x : Phase) → occupants (xs ++ x ∷ ys) ≡ places x + occupants (xs ++ ys)
unfolding occupants
occupants-append [] ys x = refl
occupants-append (y ∷ xs) ys x = omega (arith, occupants-append xs ys x)

-- What a door does where its semaphore is free: it is free again behind it, and the places that
-- are left change by what its answer says.
pub entrance_door_lem :
    {k : Calls} (h : Hall)
    → IsUp k
    → h.sem ≡ 1
    → (r : ℤ) × (h' : Hall) × (entrance_door k entrance_request h ≡ ret (some r, h'))
      × (h'.sem ≡ 1)
      × (h'.cap + places (entered r) ≡ h.cap)
      × ((r ≡ accept) ⊎ ((r ≡ reject) × ((h.cap ≡ 0) ⊎ (h.is_open ≡ false))))
unfolding entrance_door
entrance_door_lem h up free = elim (Bool-cases (ltb 0 h.cap && h.is_open)) [
  | inl yes_open ↦ (
    accept,
    record h { cap = h.cap - 1; sem = 1 },
    rw (free, p-up 0 up, v-up 0 up, yes_open) refl,
    refl,
    ground arith,
    inl refl,
  )
  | inr full ↦ (
    reject,
    record h { sem = 1 },
    rw (free, p-up 0 up, v-up 0 up, full) refl,
    refl,
    omega arith,
    inr (refl, ground arith),
  )
]

pub exit_door_lem :
    {k : Calls} (h : Hall)
    → IsUp k
    → h.sem ≡ 1
    → exit_door k exit_request h ≡ ret (some accept, record h { cap = h.cap + 1; sem = 1 })
unfolding exit_door
exit_door_lem h up free = rw (free, p-up 0 up, v-up 0 up) refl

answer-injective :
    {r r' : ℤ} {h h' : Hall}
    → ◌≡◌ {A = Outcome (Option ℤ × Hall)} (ret (some r, h)) (ret (some r', h'))
    → (r ≡ r') × (h ≡ h')
answer-injective e = (cc, cc)

Step-IsCounted : {k : Calls} {m m' : Museum} → IsUp k → Step k m m' → IsCounted m → IsCounted m'
unfolding occupants admin
Step-IsCounted up (arrive h xs) c = record { free = c.free; whole = omega (arith, c.whole) }
Step-IsCounted {k} up (enter h h' xs ys r e) c =
    let (r₁, h₁, e₁, free₁, sum, _) = entrance_door_lem h up c.free in
    let (same_r, same_h) = answer-injective (sym e₁ ∙ e) in
    subst (λ g. IsCounted (record { hall = g; people = xs ++ entered r ∷ ys })) same_h
      (subst (λ q. IsCounted (record { hall = h₁; people = xs ++ entered q ∷ ys })) same_r
        (record {
          free = free₁;
          whole = omega (
            arith,
            occupants-append xs ys asking,
            occupants-append xs ys (entered r₁),
            c.whole,
            sum,
          );
        }))
Step-IsCounted up (go h xs ys) c = record {
  free = c.free;
  whole = omega (arith, occupants-append xs ys inside, occupants-append xs ys leaving, c.whole);
}
Step-IsCounted {k} up (leave h h' xs ys r e) c =
    let (_, same_h) = answer-injective (sym (exit_door_lem h up c.free) ∙ e) in
    subst (λ g. IsCounted (record { hall = g; people = xs ++ out ∷ ys })) same_h
      (record {
        free = refl;
        whole = omega (arith, occupants-append xs ys leaving, occupants-append xs ys out, c.whole);
      })
Step-IsCounted up (set_open h xs option) c = record {
  free = ground (arith, c.free);
  whole = ground (arith, c.whole);
}

-- In every history of the museum from its creation the places that are left and the visitors
-- inside add up to twenty, and no door keeps the semaphore.
pub Reach-IsCounted : {k : Calls} {m : Museum} → IsUp k → Reach k m → IsCounted m
unfolding occupants create_museum
Reach-IsCounted up start = record { free = refl; whole = refl }
Reach-IsCounted up (next r s) = Step-IsCounted up s (Reach-IsCounted up r)
