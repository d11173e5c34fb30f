-- ===== src/Museum/Doors/Round.antt =====
-- museum/src/entranceDoor.c and exitDoor.c: one round of a door, and what it has answered behind it.
use mathlib.Core.List.{map-append}
use mathlib.Core.List as List
use sistemas_distribuid.Base.{
  Bool, subst, ℕ, zero, suc, ◌+◌, ◌≤◌, ℤ, pos, is_neg, ◌=ℤ◌, =ℤ_iff, ◌≡◌, refl, sym, ap, ◌∙◌, not,
  inl, inr, ◌⊎◌, Bool-cases, true, false, List, [], ◌∷◌, ◌++◌, length, keep, Option, none, some,
  Outcome, arith, ◌&&◌, ltb, if◌then◌else◌,
}
use sistemas_distribuid.Base as Base
use sistemas_distribuid.Ipc.Kernel.{Calls, IsUp}
use sistemas_distribuid.Museum.Visits.{entrance_door_lem, exit_door_lem}
use sistemas_distribuid.Museum.{
  Hall, entrance_door, exit_door, entrance_request, exit_request, accept, reject,
}
use sistemas_distribuid.Museum.Tour.{Message}
use sistemas_distribuid.Museum.Doors.{Env, Door, reply}

abbrev pub mtype_of : Message → ℤ
mtype_of m = m.mtype

-- The messages that a door is asked with.
abbrev pub asks : ℤ → Message → Bool
asks request m = m.type =ℤ request

-- The types that a door answers with.
abbrev pub AllAnswers : (ℤ → Type 0) → List Message → Type 0
AllAnswers P [] = Unit {0}
AllAnswers P (m ∷ ms) = P m.type × AllAnswers P ms

AllAnswers-append :
    (P : ℤ → Type 0) (xs ys : List Message)
    → AllAnswers P xs
    → AllAnswers P ys
    → AllAnswers P (xs ++ ys)
AllAnswers-append P [] ys h k = k
AllAnswers-append P (x ∷ xs) ys (p, h) k = (p, AllAnswers-append P xs ys h k)

keep-append :
    (test : Message → Bool) (xs ys : List Message)
    → keep test (xs ++ ys) ≡ keep test xs ++ keep test ys
keep-append test [] ys = refl
keep-append test (x ∷ xs) ys = elim (Bool-cases (test x)) [
  | inl passes ↦ rw passes (ap (◌∷◌ x) (keep-append test xs ys))
  | inr fails ↦ rw fails (keep-append test xs ys)
]

-- What a round of a door does where its semaphore is free: it gives it back, and it answers exactly
-- the requests of its type.
pub record IsRound (round : ℤ → Hall → Outcome (Option ℤ × Hall)) (request : ℤ) (P : ℤ → Type 0)
    : Type 0 where
  pub asked :
      (type : ℤ) (h : Hall)
      → (type =ℤ request) ≡ true
      → h.sem ≡ 1
      → (r : ℤ) × (h' : Hall) × (round type h ≡ Base.ret (some r, h')) × (h'.sem ≡ 1) × P r
  pub left_out :
      (type : ℤ) (h : Hall) → (type =ℤ request) ≡ false → round type h ≡ Base.ret (none, h)

-- The door has answered the requests that it has read, in their order, each under its own type, and
-- its semaphore is free.
pub record IsAnswered (request : ℤ) (P : ℤ → Type 0) (d : Door) : Type 0 where
  pub free : d.hall.sem ≡ 1
  pub paired : List.map mtype_of d.responses ≡ List.map mtype_of (keep (asks request) d.read)
  pub fitting : AllAnswers P d.responses

module _ {request : ℤ} {P : ℤ → Type 0} (e : Env) (round : ℤ → Hall → Outcome (Option ℤ × Hall))
    (door : IsRound round request P) where
  answered :
      (d : Door) (msg : Message) (h : Hall) (answer : Option ℤ)
      → IsAnswered request P d
      → h.sem ≡ 1
      → List.map mtype_of (reply msg answer) ≡ List.map mtype_of (keep (asks request) (msg ∷ []))
      → AllAnswers P (reply msg answer)
      → IsAnswered request P (record {
        hall = h;
        read = d.read ++ msg ∷ [];
        responses = d.responses ++ reply msg answer;
      })
  answered d msg h answer a free same fits = record {
    free = free;
    paired =
        map-append mtype_of d.responses (reply msg answer)
        ∙ ap (λ xs. xs ++ List.map mtype_of (reply msg answer)) a.paired
        ∙ ap (λ xs. List.map mtype_of (keep (asks request) d.read) ++ xs) same
        ∙ sym (map-append mtype_of (keep (asks request) d.read) (keep (asks request) (msg ∷ [])))
        ∙ ap (List.map mtype_of) (sym (keep-append (asks request) d.read (msg ∷ [])));
    fitting = AllAnswers-append P d.responses (reply msg answer) a.fitting fits;
  }

  -- After a message the door is where it was.
  pub one_more :
      (d : Door) (msg : Message) (h : Hall)
      → IsAnswered request P d
      → h.sem ≡ 1
      → (answer : Option ℤ) × (h' : Hall) × (round msg.type h ≡ Base.ret (answer, h'))
        × IsAnswered request P (record {
          hall = h';
          read = d.read ++ msg ∷ [];
          responses = d.responses ++ reply msg answer;
        })
  one_more d msg h a free = elim (Bool-cases (asks request msg)) [
    | inl asked ↦
        let (r, h', eq, free', p) = door.asked msg.type h asked free in
        (some r, h', eq, answered d msg h' (some r) a free' (rw asked refl) (p, tt))
    | inr other ↦
        (none, h, door.left_out msg.type h other, answered d msg h none a free (rw other refl) tt)
  ]

-- What an entrance door answers with, and what an exit door does.
abbrev pub Entrance : ℤ → Type 0
Entrance r = (r ≡ accept) ⊎ (r ≡ reject)

abbrev pub Exit : ℤ → Type 0
Exit r = r ≡ accept

pub entrance_door-IsRound :
    {k : Calls} → IsUp k → IsRound (entrance_door k) entrance_request Entrance
unfolding entrance_door
entrance_door-IsRound {k} up = record {
  asked = λ type h asked free.
      let (r, h', eq, free', _, why) = entrance_door_lem h up free in
      (
        r,
        h',
        subst (λ t. entrance_door k t h ≡ Base.ret (some r, h')) {x = entrance_request} {y = type}
            (sym ((=ℤ_iff _ _).0 asked)) eq,
        free',
        elim why [ inl admitted ↦ inl admitted | inr (refused, _) ↦ inr refused ],
      );
  left_out = λ type h other. rw other refl;
}

pub exit_door-IsRound : {k : Calls} → IsUp k → IsRound (exit_door k) exit_request Exit
unfolding exit_door
exit_door-IsRound {k} up = record {
  asked = λ type h asked free. (
    accept,
    record h { cap = h.cap + 1; sem = 1 },
    subst (λ t. exit_door k t h ≡ Base.ret (some accept, record h { cap = h.cap + 1; sem = 1 }))
        {x = exit_request} {y = type} (sym ((=ℤ_iff _ _).0 asked)) (exit_door_lem h up free),
    refl,
    refl,
  );
  left_out = λ type h other. rw other refl;
}
