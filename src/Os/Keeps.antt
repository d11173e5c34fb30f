-- ===== src/Os/Keeps.antt =====
-- What the code of a process leaves behind, whether it returns or ends.
use sistemas_distribuid.Os.Calls.{
  creamsg, getmsg, delmsg, rcvmsg, create_client_socket, create_server_socket, accept_client, execl,
}
use sistemas_distribuid.Base as Base
use sistemas_distribuid.Base.{
  not, length, ◌≤◌, arith, suc, Outcome, List, ℕ, ◌=ℤ◌, pos, minus_one, if◌then◌else◌, Bool, ℤ, ◌≡◌,
  refl, Bool-cases, is_neg, true, false, inl, inr,
}
use sistemas_distribuid.Os as Os
use sistemas_distribuid.Os.{
  graceful_quit, Event, Os, Call, ftok, msgget, socket, gethostbyname, connect, bind, listen,
  Process, Program, is_fork, log,
}
use sistemas_distribuid.Os.Proc.{
  lift, Result, ret, exits, becomes, hangs, running, Proc, next, sys, ◌>>=◌,
}

-- How the code of a process can stop without returning.
pub data Stop : Type 0 where
  exited : Stop
  waiting : Stop
  unfinished : Stop

-- `P` holds where the process exits; it may also be unfinished.
abbrev pub AtExit : (Process → Type 0) → Stop → Process → Type 0
AtExit P exited s = P s
AtExit P waiting s = Unit {0}
AtExit P unfinished s = Unit {0}

-- `P` holds where the process exits, and it is not unfinished.
abbrev pub OnlyExit : (Process → Type 0) → Stop → Process → Type 0
OnlyExit P exited s = P s
OnlyExit P waiting s = ⊥
OnlyExit P unfinished s = ⊥

-- `Q` holds of what is returned, and `E` where the process stops otherwise, unless it becomes
-- another program.
abbrev pub After {ℓ} :
    {A : Type ℓ} → (A → Process → Type 0) → (Stop → Process → Type 0) → Result A × Process → Type 0
After Q E (ret a, s) = Q a s
After Q E (exits c, s) = E exited s
After Q E (becomes p, s) = Unit {0}
After Q E (hangs, s) = E waiting s
After Q E (running, s) = E unfinished s

pub next-After {ℓ κ} :
    {A : Type ℓ} {B : Type κ} (Q : A → Process → Type 0) (R : B → Process → Type 0)
    (E : Stop → Process → Type 0) (x : Result A × Process) (f : A → Proc B)
    → After Q E x
    → ((a : A) (s : Process) → Q a s → After R E (f a s))
    → After R E (next x f)
next-After Q R E (ret a, s) f q k = k a s q
next-After Q R E (exits c, s) f q k = q
next-After Q R E (becomes p, s) f q k = tt
next-After Q R E (hangs, s) f q k = q
next-After Q R E (running, s) f q k = q

-- A property that no call but `fork` can end.
abbrev pub IsStable : (Process → Type 0) → Type 0
IsStable P = (s : Process) (c : Call) (r : ℤ) → is_fork c ≡ false → P s → P (log c r s)

pub After-map {ℓ} :
    {A : Type ℓ} {Q R : A → Process → Type 0} (E : Stop → Process → Type 0) (x : Result A × Process)
    → ((a : A) (s : Process) → Q a s → R a s)
    → After Q E x
    → After R E x
After-map E (ret a, s) k q = k a s q
After-map E (exits c, s) k q = q
After-map E (becomes p, s) k q = tt
After-map E (hangs, s) k q = q
After-map E (running, s) k q = q

pub After-exits {ℓ} :
    {A : Type ℓ} (Q : A → Process → Type 0) {D E : Stop → Process → Type 0} (x : Result A × Process)
    → ((stop : Stop) (s : Process) → D stop s → E stop s)
    → After Q D x
    → After Q E x
After-exits Q (ret a, s) k q = q
After-exits Q (exits c, s) k q = k exited s q
After-exits Q (becomes p, s) k q = tt
After-exits Q (hangs, s) k q = k waiting s q
After-exits Q (running, s) k q = k unfinished s q

pub if-After {ℓ} :
    {A : Type ℓ} (Q : A → Process → Type 0) (E : Stop → Process → Type 0) (s : Process) (b : Bool)
    (x y : Proc A)
    → (b ≡ true → After Q E (x s))
    → (b ≡ false → After Q E (y s))
    → After Q E ((if b then x else y) s)
if-After Q E s true x y t f = t refl
if-After Q E s false x y t f = f refl

-- Nothing is known.
abbrev pub Known : Process → Type 0
Known s = Unit {0}

pub Known-IsStable : IsStable Known
Known-IsStable s c r other h = tt

abbrev pub And : (Process → Type 0) → (Process → Type 0) → Process → Type 0
And P R s = P s × R s

pub And-IsStable : {P R : Process → Type 0} → IsStable P → IsStable R → IsStable (And P R)
And-IsStable p r s c a other (h, k) = (p s c a other h, r s c a other k)

-- From a state with `P` the code returns in one with `P`, or stops in one with `E`.
abbrev pub Keeps {ℓ} :
    {A : Type ℓ} → (Process → Type 0) → (Stop → Process → Type 0) → Proc A → Type 0
Keeps P E m = (s : Process) → P s → After (λ _. P) E (m s)

-- The process has made so many calls.
abbrev pub HasMade : ℕ → Process → Type 0
HasMade n s = n ≤ length s.history

pub HasMade-IsStable : (n : ℕ) → IsStable (HasMade n)
HasMade-IsStable n s c r other h = omega arith

-- The signal arrives before the process has made so many calls.
abbrev pub IsSignalled : Os → ℕ → Type 0
IsSignalled os n = (h : List Event) → n ≤ length h → not (os h graceful_quit =ℤ pos 0) ≡ true

pub bind-Keeps {ℓ κ} :
    {A : Type ℓ} {B : Type κ} (P : Process → Type 0) (E : Stop → Process → Type 0) (m : Proc A)
    (f : A → Proc B)
    → Keeps P E m
    → ((a : A) → Keeps P E (f a))
    → Keeps P E (m >>= f)
bind-Keeps P E m f k l s h = next-After (λ _. P) (λ _. P) E (m s) f (k s h) l

pub if-Keeps {ℓ} :
    {A : Type ℓ} (P : Process → Type 0) (E : Stop → Process → Type 0) (b : Bool) (x y : Proc A)
    → Keeps P E x
    → Keeps P E y
    → Keeps P E (if b then x else y)
if-Keeps P E b x y k l s h = if-After (λ _. P) E s b x y (λ _. k s h) (λ _. l s h)

pub lift-Keeps {ℓ} :
    {A : Type ℓ} (P : Process → Type 0) (o : Outcome A) → Keeps P (AtExit P) (lift o)
lift-Keeps P (Base.ret a) s h = h
lift-Keeps P Base.blocked s h = tt
lift-Keeps P (Base.exits c) s h = h

module _ {P : Process → Type 0} (E : Stop → Process → Type 0) (stable : IsStable P) where
  sys-Keeps : (os : Os) (c : Call) → is_fork c ≡ false → Keeps P E (sys os c)
  sys-Keeps os c other s h = stable s c (os s.history c) other h

  pub creamsg-Keeps : (os : Os) (id : ℕ) → Keeps P E (creamsg os id)
  unfolding creamsg
  creamsg-Keeps os id s h =
      if-After _ E _ (is_neg (os s.history (ftok id))) _ _ (λ _. stable _ _ _ refl h)
        (λ _. stable _ _ _ refl (stable _ _ _ refl h))

  pub getmsg-Keeps : (os : Os) (id : ℕ) → Keeps P E (getmsg os id)
  unfolding getmsg
  getmsg-Keeps os id s h =
      if-After _ E _ (is_neg (os s.history (ftok id))) _ _ (λ _. stable _ _ _ refl h)
        (λ _. stable _ _ _ refl (stable _ _ _ refl h))

  pub rcvmsg-Keeps : (os : Os) (id : ℤ) → Keeps P E (rcvmsg os id)
  unfolding rcvmsg
  rcvmsg-Keeps os id s h = stable _ _ _ refl h

  pub delmsg-Keeps : (os : Os) (id : ℤ) → Keeps P E (delmsg os id)
  unfolding delmsg
  delmsg-Keeps os id s h = stable _ _ _ refl h

  accept_client-Keeps : (os : Os) (id : ℤ) → Keeps P E (accept_client os id)
  unfolding accept_client
  accept_client-Keeps os id s h = stable _ _ _ refl h

  pub execl-Keeps :
      (os : Os) (p : Program) (arguments : List (List ℕ)) → Keeps P E (execl os p arguments)
  unfolding execl
  execl-Keeps os p arguments s h =
      if-After _ E _ (is_neg (os s.history (Os.execl p arguments))) _ _ (λ _. stable _ _ _ refl h)
        (λ _. tt)

  pub create_server_socket-Keeps : (os : Os) (port : ℕ) → Keeps P E (create_server_socket os port)
  unfolding create_server_socket
  create_server_socket-Keeps os port s h =
      let fd : ℤ = os s.history socket in
      let s1 : Process = log socket fd s in
      let r1 : ℤ = os s1.history (bind fd port) in
      let s2 : Process = log (bind fd port) r1 s1 in
      let r2 : ℤ = os s2.history (listen fd) in
      let made = stable s socket fd refl h in
      let bound = stable s1 (bind fd port) r1 refl made in
      let listening = stable s2 (listen fd) r2 refl bound in
      if-After _ E _ (is_neg fd) _ _ (λ _. made)
        (λ _.
          if-After _ E _ (is_neg r1) _ _ (λ _. bound)
            (λ _. if-After _ E _ (is_neg r2) _ _ (λ _. listening) (λ _. listening)))

module _ {P : Process → Type 0} (stable : IsStable P) where
  pub create_client_socket-Keeps :
      (os : Os) (port : ℕ) → Keeps P (OnlyExit P) (create_client_socket os port)
  unfolding create_client_socket
  create_client_socket-Keeps os port s h =
      let fd : ℤ = os s.history socket in
      let s1 : Process = log socket fd s in
      let s2 : Process = log gethostbyname (os s1.history gethostbyname) s1 in
      let made = stable s socket fd refl h in
      let found = stable s1 gethostbyname (os s1.history gethostbyname) refl made in
      let r : ℤ = os s2.history (connect fd port) in
      let connected = stable s2 (connect fd port) r refl found in
      if-After _ (OnlyExit P) _ (is_neg fd) _ _ (λ _. made)
        (λ _.
          if-After _ (OnlyExit P) _ (is_neg (os s1.history gethostbyname)) _ _ (λ _. found)
            (λ _. if-After _ (OnlyExit P) _ (r =ℤ pos 0) _ _ (λ _. connected) (λ _. connected)))
