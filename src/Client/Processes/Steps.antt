-- ===== src/Client/Processes/Steps.antt =====
-- broker/client/broker_req_handler.c: the steps of `main`.
use mathlib.Core.List.{Memᴰ}
use mathlib.Core.Bool.{true≢false}
use sistemas_distribuid.Base.{
  ℕ, zero, suc, ℤ, pos, minus_one, is_neg, ◌=ℤ◌, ◌≡◌, refl, true, false, not, inl, inr, ◌⊎◌, ◌+◌,
  ◌≤◌, length, arith, if◌then◌else◌, List, [], ◌∷◌, Outcome, subst,
}
use sistemas_distribuid.Base as Base
use sistemas_distribuid.Client.Handlers.{World, process_msg}
use sistemas_distribuid.Os.{
  Os, Program, Process, Call, log, fork, kill, ftok, msgget, msgctl_rmid, close,
}
use sistemas_distribuid.Os as Os
use sistemas_distribuid.Os.Proc.{pure, exit, next, lift}
use sistemas_distribuid.Os.Calls.{execl, snprintf, creamsg, delmsg, rcvmsg}
use sistemas_distribuid.Os.Keeps.{
  Known, Known-IsStable, HasMade, HasMade-IsStable, IsSignalled, exited, waiting, unfinished, Stop,
  After, next-After, if-After, IsStable, And, And-IsStable, execl-Keeps, rcvmsg-Keeps,
}
use sistemas_distribuid.Os.Children.{HasForked, IsStopped, event}
use sistemas_distribuid.Client.Processes.{
  resp_handler_child, Env, create_broker_resp_handler, stop_handler, serve,
}

-- The process has made this queue, for the key of that number.
abbrev pub IsMade : ℕ → ℤ → Process → Type 0
IsMade id queue s =
    (key : ℤ) × Memᴰ (event (ftok id) key) s.history
    × Memᴰ (event (msgget key true) queue) s.history

-- It has called for its deletion.
abbrev pub IsDeleted : ℤ → Process → Type 0
IsDeleted queue s = (r : ℤ) × Memᴰ (event (msgctl_rmid queue) r) s.history

-- Nothing is said of a process that does not return, but that its rounds are enough.
abbrev pub Any : Stop → Process → Type 0
Any exited s = Unit {0}
Any waiting s = Unit {0}
Any unfinished s = ⊥

pub IsMade-IsStable : (id : ℕ) (queue : ℤ) → IsStable (IsMade id queue)
IsMade-IsStable id queue s c r other (key, a, m) = (key, Memᴰ.tail a, Memᴰ.tail m)

pub IsDeleted-IsStable : (queue : ℤ) → IsStable (IsDeleted queue)
IsDeleted-IsStable queue s c r other (a, m) = (a, Memᴰ.tail m)

-- Code that stops otherwise than by returning proves nothing.
pub lift-Any :
    {A : Type 0} (P : Process → Type 0) (o : Outcome A) (s : Process)
    → P s
    → After (λ _. P) Any (lift o s)
lift-Any P (Base.ret a) s h = h
lift-Any P Base.blocked s h = tt
lift-Any P (Base.exits c) s h = tt

creamsg-IsMade :
    {P : Process → Type 0} (os : Os) (id : ℕ) (s : Process)
    → IsStable P
    → P s
    → After (λ q t. P t × (is_neg q ≡ false → IsMade id q t)) Any (creamsg os id s)
unfolding creamsg
creamsg-IsMade os id s stable h =
    let key : ℤ = os s.history (ftok id) in
    if-After _ Any _ (is_neg key) _ _
      (λ _. (stable s (ftok id) key refl h, λ good. elim (true≢false good) [ ]))
      (λ _. (
        stable (log (ftok id) key s) (msgget key true) _ refl (stable s (ftok id) key refl h),
        λ good. (key, Memᴰ.tail (Memᴰ.head refl), Memᴰ.head refl),
      ))

-- What all three functions that make a queue come to.
pub init-IsMade :
    {P : Process → Type 0} (os : Os) (id : ℕ) (s : Process)
    → IsStable P
    → P s
    → After
        (λ q. And P (IsMade id q))
        Any
        (next (creamsg os id s) (λ q. if is_neg q then exit minus_one else pure q))
init-IsMade {P = P} os id s stable h =
    next-After (λ q t. P t × (is_neg q ≡ false → IsMade id q t)) (λ q. And P (IsMade id q)) Any
      (creamsg os id s) _ (creamsg-IsMade os id s stable h)
      (λ q t (k, made). if-After _ Any t (is_neg q) _ _ (λ _. tt) (λ good. (k, made good)))

pub create_broker_resp_handler-HasForked :
    (P : Process → Type 0) (os : Os) (socket : ℤ) (s : Process)
    → ((r : ℤ) → P (log fork r s))
    → After (λ pid. And P (HasForked pid)) Any (create_broker_resp_handler os socket s)
unfolding create_broker_resp_handler resp_handler_child
create_broker_resp_handler-HasForked P os socket s h =
    let r : ℤ = os s.history fork in
    if-After _ Any _ (is_neg r) _ _ (λ _. tt)
      (λ _.
        if-After _ Any _ (r =ℤ pos 0) _ _
          (λ _.
            next-After (λ _. Known) (λ pid. And P (HasForked pid)) Any
              (execl os Os.broker_resp_handler (snprintf 3 socket ∷ []) (log fork r s)) _
              (execl-Keeps Any Known-IsStable os Os.broker_resp_handler (snprintf 3 socket ∷ []) _
                tt)
              (λ _ _ _. tt))
          (λ _. (h r, Memᴰ.head refl)))

pub stop_handler-IsStopped :
    {P : Process → Type 0} (os : Os) (pid : ℤ) (s : Process)
    → IsStable P
    → P s
    → After (λ _. And P (IsStopped pid)) Any (stop_handler os pid s)
unfolding stop_handler
stop_handler-IsStopped os pid s stable h =
    let r : ℤ = os s.history (kill pid) in
    if-After _ Any _ (is_neg r) _ _
      (λ refused. (stable _ _ _ refl h, (r, Memᴰ.head refl, inl refused)))
      (λ _. (
        stable _ _ _ refl (stable _ _ _ refl h),
        (r, Memᴰ.tail (Memᴰ.head refl), inr (_, Memᴰ.head refl)),
      ))

pub delmsg-IsDeleted :
    {P : Process → Type 0} (os : Os) (queue : ℤ) (s : Process)
    → IsStable P
    → P s
    → After (λ _. And P (IsDeleted queue)) Any (delmsg os queue s)
unfolding delmsg
delmsg-IsDeleted os queue s stable h = (stable _ _ _ refl h, (_, Memᴰ.head refl))

-- Each round makes a call, so that the flag is set before the rounds run out.
pub serve-returns :
    {Q S : Type 0} {P : Process → Type 0} (e : Env Q S) (queue : ℤ) (n fuel : ℕ) (w : World Q S)
    (s : Process)
    → IsStable P
    → IsSignalled e.os n
    → n ≤ fuel + length s.history
    → P s
    → After (λ _. P) Any (serve e queue (suc fuel) w s)
unfolding serve
serve-returns e queue n zero w s stable signalled made h =
    rw (signalled s.history (omega arith)) (stable s Os.graceful_quit _ refl h)
serve-returns {P = P} e queue n (suc fuel) w s stable signalled made h =
    let q : ℤ = e.os s.history Os.graceful_quit in
    let s1 : Process = log Os.graceful_quit q s in
    let k : ℕ = suc (length s.history) in
    let R = And P (HasMade k) in
    let kept = And-IsStable stable (HasMade-IsStable k) in
    let h1 : R s1 = (stable s Os.graceful_quit q refl h, omega arith) in
    if-After _ Any _ (not (q =ℤ pos 0)) _ _ (λ _. h1.0)
      (λ _.
        next-After (λ _. R) (λ _. P) Any (rcvmsg e.os queue s1) _
          (rcvmsg-Keeps Any kept e.os queue s1 h1)
          (λ _ s2 h2.
            let q' : ℤ = e.os s2.history Os.graceful_quit in
            let s3 : Process = log Os.graceful_quit q' s2 in
            let h3 = kept s2 Os.graceful_quit q' refl h2 in
            if-After _ Any _ (not (q' =ℤ pos 0)) _ _ (λ _. h3.0)
              (λ _.
                next-After (λ _. R) (λ _. P) Any
                  (lift (process_msg e.handlers (e.received s3.history) w) s3) _
                  (lift-Any R (process_msg e.handlers (e.received s3.history) w) s3 h3)
                  (λ w' s4 (h4, more).
                    serve-returns e queue n fuel w' s4 stable signalled (omega (arith, more)) h4))))
