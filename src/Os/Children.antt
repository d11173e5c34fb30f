-- ===== src/Os/Children.antt =====
-- The children of a process: which it has forked, and which it has told to stop.
use mathlib.Core.List.{Memᴰ}
use mathlib.Core.List.Memᴰ as Memᴰ
use mathlib.Core.Bool.{true≢false}
use sistemas_distribuid.Base.{
  arith, ◌≢◌, ◌=ℤ◌, ◌++◌, ◌∷◌, [], ℕ, suc, ℤ, pos, is_neg, ◌≡◌, ap, sym, ◌∙◌, ◌⊎◌, inl, inr, true,
  false, List,
}
use sistemas_distribuid.Os.{Call, Event, Process, log, is_fork, fork, kill, waitpid}
use sistemas_distribuid.Os.Keeps.{IsStable}

abbrev pub event : Call → ℤ → Event
event c r = record { call = c; answer = r }

-- The process has forked this child. A child's id is positive.
abbrev pub IsForked : ℕ → Process → Type 0
IsForked n s = Memᴰ (event fork (pos (suc n))) s.history

-- The process has told this child to stop, and has waited for it unless the kernel refused.
abbrev pub IsStopped : ℤ → Process → Type 0
IsStopped pid s =
    (r : ℤ) × Memᴰ (event (kill pid) r) s.history
    × ((is_neg r ≡ true) ⊎ ((w : ℤ) × Memᴰ (event (waitpid pid) w) s.history))

abbrev pub AllStopped : Process → Type 0
AllStopped s = (n : ℕ) → IsForked n s → IsStopped (pos (suc n)) s

-- Every child that was forked is on the list.
abbrev pub AllOn : List ℤ → Process → Type 0
AllOn childs s = (n : ℕ) → IsForked n s → Memᴰ (pos (suc n)) childs

IsForked-log :
    (n : ℕ) (s : Process) (c : Call) (r : ℤ)
    → is_fork c ≡ false
    → IsForked n (log c r s)
    → IsForked n s
IsForked-log n s c r other (Memᴰ.head e) =
    elim (true≢false (ap (λ e'. is_fork e'.call) e ∙ other)) [ ]
IsForked-log n s c r other (Memᴰ.tail m) = m

pub IsStopped-IsStable : (pid : ℤ) → IsStable (IsStopped pid)
IsStopped-IsStable pid s c r other (k, m, inl refused) = (k, Memᴰ.tail m, inl refused)
IsStopped-IsStable pid s c r other (k, m, inr (w, m')) = (k, Memᴰ.tail m, inr (w, Memᴰ.tail m'))

pub AllStopped-IsStable : IsStable AllStopped
AllStopped-IsStable s c r other h n forked =
    IsStopped-IsStable (pos (suc n)) s c r other (h n (IsForked-log n s c r other forked))

pub AllOn-IsStable : (childs : List ℤ) → IsStable (AllOn childs)
AllOn-IsStable childs s c r other h n forked = h n (IsForked-log n s c r other forked)

-- The answer to `fork` is no child's id: it was refused, or this is the child.
abbrev IsNoChild : ℤ → Type 0
IsNoChild r = (n : ℕ) → pos (suc n) ≢ r

pub refused-IsNoChild : (r : ℤ) → is_neg r ≡ true → IsNoChild r
refused-IsNoChild r h n e = true≢false (sym h ∙ ap is_neg (sym e))

pub child-IsNoChild : (r : ℤ) → (r =ℤ pos 0) ≡ true → IsNoChild r
child-IsNoChild r h n e = ground arith

pub fork-AllOn :
    (childs : List ℤ) (s : Process) (r : ℤ)
    → IsNoChild r
    → AllOn childs s
    → AllOn childs (log fork r s)
fork-AllOn childs s r none h n (Memᴰ.head e) = elim (none n (ap (λ e'. e'.answer) e)) [ ]
fork-AllOn childs s r none h n (Memᴰ.tail m) = h n m

pub append-AllOn :
    (childs : List ℤ) (s : Process) (r : ℤ)
    → AllOn childs s
    → AllOn (childs ++ r ∷ []) (log fork r s)
append-AllOn childs s r h n (Memᴰ.head e) =
    Memᴰ.append_right childs (Memᴰ.head (ap (λ e'. e'.answer) e))
append-AllOn childs s r h n (Memᴰ.tail m) = Memᴰ.append_left (r ∷ []) (h n m)

-- Without children there is none to stop.
pub AllOn-nil : (s : Process) → AllOn [] s → AllStopped s
AllOn-nil s h n forked = elim (h n forked) [ ]

pub AllOn-more : (childs : List ℤ) (s : Process) → AllOn [] s → AllOn childs s
AllOn-more childs s h n forked = elim (h n forked) [ ]

-- The process has forked this child.
abbrev pub HasForked : ℤ → Process → Type 0
HasForked pid s = Memᴰ (event fork pid) s.history

pub HasForked-IsStable : (pid : ℤ) → IsStable (HasForked pid)
HasForked-IsStable pid s c r other m = Memᴰ.tail m

-- Whatever `fork` was answered was the id of a child: this is the process that forked.
abbrev pub IsParent : Process → Type 0
IsParent s = (r : ℤ) → Memᴰ (event fork r) s.history → (is_neg r ≡ false) × ((r =ℤ pos 0) ≡ false)

pub IsParent-IsStable : IsStable IsParent
IsParent-IsStable s c r other h a (Memᴰ.head e) =
    elim (true≢false (ap (λ v. is_fork v.call) e ∙ other)) [ ]
IsParent-IsStable s c r other h a (Memᴰ.tail m) = h a m

pub forked-IsParent :
    (s : Process) (r : ℤ)
    → is_neg r ≡ false
    → (r =ℤ pos 0) ≡ false
    → IsParent s
    → IsParent (log fork r s)
forked-IsParent s r made child h a (Memᴰ.head e) =
    let same : a ≡ r = ap (λ v. v.answer) e in rw same (made, child)
forked-IsParent s r made child h a (Memᴰ.tail m) = h a m
