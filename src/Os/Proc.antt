-- ===== src/Os/Proc.antt =====
-- The code of a process: it returns, ends, becomes another program, or has not ended yet: it
-- waits for ever, or its loop needs more rounds than it was given.
use sistemas_distribuid.Base.{ℤ, List, ◌++◌, ◌∷◌, []}
use sistemas_distribuid.Base as Base
use sistemas_distribuid.Base.{Outcome}
use sistemas_distribuid.Os.{Os, Call, Process, Program, log}

pub data Result {ℓ} (A : Type ℓ) : Type ℓ where
  ret : A → Result A
  exits : ℤ → Result A
  becomes : Program → Result A
  hangs : Result A
  running : Result A

abbrev pub Proc {ℓ} : Type ℓ → Type ℓ
Proc A = Process → Result A × Process

abbrev pub next {ℓ κ} :
    {A : Type ℓ} {B : Type κ} → Result A × Process → (A → Proc B) → Result B × Process
next (ret a, s) f = f a s
next (exits c, s) f = (exits c, s)
next (becomes p, s) f = (becomes p, s)
next (hangs, s) f = (hangs, s)
next (running, s) f = (running, s)

infixl 5 ◌>>=◌ ◌>>◌
abbrev pub ◌>>=◌ {ℓ κ} : {A : Type ℓ} {B : Type κ} → Proc A → (A → Proc B) → Proc B
(m >>= f) s = next (m s) f

abbrev pub ◌>>◌ {ℓ κ} : {A : Type ℓ} {B : Type κ} → Proc A → Proc B → Proc B
m >> k = m >>= λ _. k

abbrev pub pure {ℓ} : {A : Type ℓ} → A → Proc A
pure a s = (ret a, s)

-- `exit(code)`
abbrev pub exit {ℓ} : {A : Type ℓ} → ℤ → Proc A
exit code s = (exits code, s)

abbrev pub sys : Os → Call → Proc ℤ
sys os c s = (ret (os s.history c), log c (os s.history c) s)

-- What a function of the tables in shared memory comes to, as code of the process.
abbrev pub lift {ℓ} : {A : Type ℓ} → Outcome A → Proc A
lift (Base.ret a) s = (ret a, s)
lift Base.blocked s = (hangs, s)
lift (Base.exits c) s = (exits c, s)

-- `list_append(&childs, &pid)`
abbrev pub append_child : ℤ → Proc (Unit {0})
append_child pid s = (ret tt, record s { childs = s.childs ++ pid ∷ [] })

-- `list_destroy(&childs)`
abbrev pub destroy_childs : Proc (Unit {0})
destroy_childs s = (ret tt, record s { childs = [] })

-- A process before its first call.
abbrev pub fresh : Process
fresh = record { history = []; childs = [] }
