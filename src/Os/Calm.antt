-- ===== src/Os/Calm.antt =====
-- Code that does not become another program.
use sistemas_distribuid.Base.{
  Bool, true, false, ℕ, ℤ, is_neg, ◌=ℤ◌, pos, ◌≡◌, refl, Outcome, if◌then◌else◌,
}
use sistemas_distribuid.Base as Base
use sistemas_distribuid.Os.{Os, Process, ftok, socket, gethostbyname, connect, log}
use sistemas_distribuid.Os.Proc.{
  Result, ret, exits, becomes, hangs, running, Proc, next, lift, ◌>>=◌,
}
use sistemas_distribuid.Os.Calls.{getmsg, create_client_socket}

abbrev pub Calm {ℓ} : {A : Type ℓ} → Result A × Process → Type 0
Calm (ret a, s) = Unit {0}
Calm (exits c, s) = Unit {0}
Calm (becomes p, s) = ⊥
Calm (hangs, s) = Unit {0}
Calm (running, s) = Unit {0}

abbrev pub IsCalm {ℓ} : {A : Type ℓ} → Proc A → Type 0
IsCalm m = (s : Process) → Calm (m s)

pub bind-IsCalm {ℓ κ} :
    {A : Type ℓ} {B : Type κ} (m : Proc A) (f : A → Proc B)
    → IsCalm m
    → ((a : A) → IsCalm (f a))
    → IsCalm (m >>= f)
bind-IsCalm {A = A} {B} m f h k s = go (m s) (h s)
  where
    go : (x : Result A × Process) → Calm x → Calm (next x f)
    go (ret a, t) c = k a t
    go (exits a, t) c = tt
    go (becomes p, t) c = c
    go (hangs, t) c = tt
    go (running, t) c = tt

pub if-Calm {ℓ} :
    {A : Type ℓ} (s : Process) (b : Bool) (x y : Proc A)
    → Calm (x s)
    → Calm (y s)
    → Calm ((if b then x else y) s)
if-Calm s true x y h k = h
if-Calm s false x y h k = k

pub lift-IsCalm {ℓ} : {A : Type ℓ} (o : Outcome A) → IsCalm (lift o)
lift-IsCalm (Base.ret a) s = tt
lift-IsCalm Base.blocked s = tt
lift-IsCalm (Base.exits c) s = tt

-- Code that returns or exits.
abbrev pub Brief {ℓ} : {A : Type ℓ} → Result A × Process → Type 0
Brief (ret a, s) = Unit {0}
Brief (exits c, s) = Unit {0}
Brief (becomes p, s) = ⊥
Brief (hangs, s) = ⊥
Brief (running, s) = ⊥

abbrev pub IsBrief {ℓ} : {A : Type ℓ} → Proc A → Type 0
IsBrief m = (s : Process) → Brief (m s)

-- Where it stands first, what follows has what `exit` has too.
pub next-Brief {ℓ κ} :
    {A : Type ℓ} {B : Type κ} (R : Result B × Process → Type 0) (x : Result A × Process)
    (f : A → Proc B)
    → Brief x
    → ((c : ℤ) (s : Process) → R (exits c, s))
    → ((a : A) (s : Process) → R (f a s))
    → R (next x f)
next-Brief R (ret a, s) f b out on = on a s
next-Brief R (exits c, s) f b out on = out c s
next-Brief R (becomes p, s) f b out on = elim b [ ]
next-Brief R (hangs, s) f b out on = elim b [ ]
next-Brief R (running, s) f b out on = elim b [ ]

pub bind-IsBrief {ℓ κ} :
    {A : Type ℓ} {B : Type κ} (m : Proc A) (f : A → Proc B)
    → IsBrief m
    → ((a : A) → IsBrief (f a))
    → IsBrief (m >>= f)
bind-IsBrief m f h k s = next-Brief Brief (m s) f (h s) (λ _ _. tt) k

pub if-Brief {ℓ} :
    {A : Type ℓ} (s : Process) (b : Bool) (x y : Proc A)
    → Brief (x s)
    → Brief (y s)
    → Brief ((if b then x else y) s)
if-Brief s true x y h k = h
if-Brief s false x y h k = k

pub if-Over {ℓ} :
    {A : Type ℓ} (R : Result A × Process → Type 0) (s : Process) (b : Bool) (x y : Proc A)
    → (b ≡ true → R (x s))
    → (b ≡ false → R (y s))
    → R ((if b then x else y) s)
if-Over R s true x y h k = h refl
if-Over R s false x y h k = k refl

-- Two runs that begin alike: what follows holds of both, or both have exited.
pub next-Both {ℓ κ} :
    {A : Type ℓ} {B : Type κ} (R : Result B × Process → Result B × Process → Type 0)
    (x : Result A × Process) (f g : A → Proc B)
    → Brief x
    → ((c : ℤ) (s : Process) → R (exits c, s) (exits c, s))
    → ((a : A) (s : Process) → R (f a s) (g a s))
    → R (next x f) (next x g)
next-Both R (ret a, s) f g b out on = on a s
next-Both R (exits c, s) f g b out on = out c s
next-Both R (becomes p, s) f g b out on = elim b [ ]
next-Both R (hangs, s) f g b out on = elim b [ ]
next-Both R (running, s) f g b out on = elim b [ ]

pub getmsg-IsBrief : (os : Os) (id : ℕ) → IsBrief (getmsg os id)
unfolding getmsg
getmsg-IsBrief os id s = if-Brief _ (is_neg (os s.history (ftok id))) _ _ tt tt

pub create_client_socket-IsBrief : (os : Os) (port : ℕ) → IsBrief (create_client_socket os port)
unfolding create_client_socket
create_client_socket-IsBrief os port s =
    let fd : ℤ = os s.history socket in
    let s1 : Process = log socket fd s in
    let server : ℤ = os s1.history gethostbyname in
    let s2 : Process = log gethostbyname server s1 in
    if-Brief _ (is_neg fd) _ _ tt (
      if-Brief _ (is_neg server) _ _ tt
        (if-Brief _ (os s2.history (connect fd port) =ℤ pos 0) _ _ tt tt))
