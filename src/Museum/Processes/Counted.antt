-- ===== src/Museum/Processes/Counted.antt =====
-- museum/src/main.c: the children over a whole run of `main`.
use sistemas_distribuid.Base.{
  ℕ, zero, suc, ◌+◌, ◌≤◌, ℤ, pos, negsuc, is_neg, ◌=ℤ◌, if◌then◌else◌, true, false, ◌≡◌, refl, ◌∙◌,
  List, [], ◌∷◌, length, length-append, arith,
}
use sistemas_distribuid.Os.{Os, Call, Event, Process, Program, is_fork, fork, log}
use sistemas_distribuid.Os as Os
use sistemas_distribuid.Os.Proc.{Result}
use sistemas_distribuid.Os.Calls.{execl}
use sistemas_distribuid.Os.Keeps.{
  Stop, OnlyExit, After, After-map, next-After, if-After, IsStable, Keeps, execl-Keeps,
}
use sistemas_distribuid.Museum.Processes.{
  max_childs, kill_each, kill_childs, wait_each, wait_childs, destroy_ipcs, safe_exit, start_child,
  start,
}
use sistemas_distribuid.Museum.Processes.Deletion.{destroy_ipcs-Keeps}

abbrev is_wait : Call → ℕ
is_wait Os.wait = 1
is_wait _ = 0

-- The id of a child is positive.
abbrev is_child : ℤ → ℕ
is_child (pos zero) = 0
is_child (pos (suc n)) = 1
is_child (negsuc n) = 0

-- How many children were forked.
abbrev pub forks : List Event → ℕ
forks [] = 0
forks (e ∷ h) = (if is_fork e.call then is_child e.answer else 0) + forks h

-- How many times `wait` was called.
abbrev pub waits : List Event → ℕ
waits [] = 0
waits (e ∷ h) = is_wait e.call + waits h

-- So many children were forked, they are all in the array, and so many waits were made.
abbrev pub Count : ℕ → ℕ → Process → Type 0
Count n m s = (forks s.history ≡ n) × (length s.childs ≡ n) × (m ≤ waits s.history)

pub Count-IsStable : (n m : ℕ) → IsStable (Count n m)
Count-IsStable n m s c r other (forked, listed, waited) =
    (rw other (omega (arith, forked)), listed, omega (arith, waited))

-- All children were waited for, and the array was large enough.
abbrev pub IsDone : Process → Type 0
IsDone s = (forks s.history ≤ waits s.history) × (length s.childs ≤ max_childs)

pub IsDone-IsStable : IsStable IsDone
IsDone-IsStable s c r other (waited, room) = (rw other (omega (arith, waited)), room)

kill_each-Keeps :
    (E : Stop → Process → Type 0) (n : ℕ) (os : Os) (childs : List ℤ)
    → Keeps (Count n 0) E (kill_each os childs)
unfolding kill_each
kill_each-Keeps E n os [] = λ _ h. h
kill_each-Keeps E n os (child ∷ childs) = λ s h.
    kill_each-Keeps E n os childs _
      (Count-IsStable n 0 s (Os.kill child) (os s.history (Os.kill child)) refl h)

wait_each-Count :
    (E : Stop → Process → Type 0) (n m k : ℕ) (os : Os) (rounds : ℕ) (s : Process)
    → rounds + m ≡ k
    → Count n m s
    → After (λ _. Count n k) E (wait_each os rounds s)
unfolding wait_each
wait_each-Count E n m k os zero s e (forked, listed, waited) =
    (forked, listed, omega (arith, e, waited))
wait_each-Count E n m k os (suc rounds) s e (forked, listed, waited) =
    wait_each-Count E n (suc m) k os rounds (log Os.wait (os s.history Os.wait) s)
      (omega (arith, e)) (omega (arith, forked), listed, omega (arith, waited))

Count-IsDone : (n : ℕ) (s : Process) → n ≤ max_childs → Count n n s → IsDone s
Count-IsDone n s room (forked, listed, waited) =
    (omega (arith, forked, waited), omega (arith, listed, room))

pub wait_childs-IsDone :
    (E : Stop → Process → Type 0) (n : ℕ) (os : Os) (s : Process)
    → n ≤ max_childs
    → Count n 0 s
    → After (λ _. IsDone) E (wait_childs os s)
unfolding wait_childs
wait_childs-IsDone E n os s room (forked, listed, waited) =
    After-map E (wait_each os (length s.childs) s) (λ _ t k. Count-IsDone n t room k)
      (wait_each-Count E n 0 n os (length s.childs) s (omega (arith, listed))
        (forked, listed, waited))

safe_exit-IsDone :
    {A : Type 0} (Q : A → Process → Type 0) (n : ℕ) (os : Os) (s : Process)
    → n ≤ max_childs
    → Count n 0 s
    → After Q (OnlyExit IsDone) (safe_exit os s)
unfolding safe_exit kill_childs
safe_exit-IsDone Q n os s room h =
    next-After (λ _. Count n 0) Q (OnlyExit IsDone) (kill_each os s.childs s) _
      (kill_each-Keeps (OnlyExit IsDone) n os s.childs s h)
      (λ _ t k.
        next-After (λ _. IsDone) Q (OnlyExit IsDone) (wait_childs os t) _
          (wait_childs-IsDone (OnlyExit IsDone) n os t room k)
          (λ _ u l.
            next-After (λ _. IsDone) Q (OnlyExit IsDone) (destroy_ipcs os u) _
              (destroy_ipcs-Keeps (OnlyExit IsDone) IsDone-IsStable os u l) (λ _ v m. m)))

-- From so many children the code returns with so many, or exits when all is done.
abbrev pub Counts : ℕ → ℕ → (Process → Result (Unit {0}) × Process) → Type 0
Counts n k m =
    (s : Process) → n ≤ max_childs → Count n 0 s → After (λ _. Count k 0) (OnlyExit IsDone) (m s)

no_child : (r : ℤ) → is_neg r ≡ true → is_child r ≡ 0
no_child (pos zero) h = refl
no_child (pos (suc n)) h = ground arith
no_child (negsuc n) h = refl

this_child : (r : ℤ) → (r =ℤ pos 0) ≡ true → is_child r ≡ 0
this_child (pos zero) h = refl
this_child (pos (suc n)) h = ground arith
this_child (negsuc n) h = refl

a_child : (r : ℤ) → is_neg r ≡ false → (r =ℤ pos 0) ≡ false → is_child r ≡ 1
a_child (pos zero) h k = ground arith
a_child (pos (suc n)) h k = refl
a_child (negsuc n) h k = ground arith

pub start-Counts :
    (n : ℕ) (os : Os) (program : Program) (arguments : List (List ℕ))
    → suc n ≤ max_childs
    → Counts n (suc n) (start os program arguments)
unfolding start start_child
start-Counts n os program arguments more s room (forked, listed, waited) =
    let r : ℤ = os s.history fork in
    if-After _ (OnlyExit IsDone) _ (is_neg r) _ _
      (λ refused.
        safe_exit-IsDone (λ _. Count (suc n) 0) n os (log fork r s) room
          (omega (arith, no_child r refused, forked), listed, omega arith))
      (λ large.
        if-After _ (OnlyExit IsDone) _ (r =ℤ pos 0) _ _
          (λ child.
            next-After (λ _. Count n 0) (λ _. Count (suc n) 0) (OnlyExit IsDone)
              (execl os program arguments (log fork r s)) _
              (execl-Keeps (OnlyExit IsDone) (Count-IsStable n 0) os program arguments
                (log fork r s) (omega (arith, this_child r child, forked), listed, omega arith))
              (λ _ t k. safe_exit-IsDone (λ _. Count (suc n) 0) n os t room k))
          (λ parent. (
            omega (arith, a_child r large parent, forked),
            length-append s.childs (r ∷ []) ∙ omega (arith, listed),
            omega arith,
          )))

-- `safe_exit` where something could not be made.
pub give_up :
    (n k : ℕ) (os : Os) (s : Process)
    → n ≤ max_childs
    → Count n 0 s
    → After {A = Unit {0}} (λ _. Count k 0) (OnlyExit IsDone) (safe_exit os s)
give_up n k os s room h = safe_exit-IsDone (λ _. Count k 0) n os s room h
