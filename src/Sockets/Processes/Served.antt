-- ===== src/Sockets/Processes/Served.antt =====
-- sockets/server.c: how `main` ends.
use mathlib.Core.List.{Memᴰ}
use mathlib.Core.List.Memᴰ as Memᴰ
use sistemas_distribuid.Base.{
  ℕ, zero, suc, ◌+◌, ◌≤◌, ℤ, pos, is_neg, ◌=ℤ◌, ◌≡◌, refl, not, inl, inr, ◌⊎◌, length, arith, [],
}
use sistemas_distribuid.Os.{Process, log, fork, socket, bind, listen, accept, close, graceful_quit}
use sistemas_distribuid.Os.Proc.{Result, ret, exits, becomes, hangs, running, next, fresh}
use sistemas_distribuid.Os.Keeps.{IsSignalled}
use sistemas_distribuid.Os.Calm.{if-Over}
use sistemas_distribuid.Os.Children.{event, IsParent, IsParent-IsStable, forked-IsParent}
use sistemas_distribuid.Sockets.Processes.{Env, port, answer_child, serve, main}

-- The process exits, or returns as the one that forked.
abbrev IsServing : Result (Unit {0}) × Process → Type 0
IsServing x = ((code : ℤ) × (x.0 ≡ exits code)) ⊎ ((x.0 ≡ ret tt) × IsParent x.1)

serve-IsServing :
    (e : Env) (fd : ℤ) (n fuel : ℕ) (s : Process)
    → IsSignalled e.os n
    → n ≤ fuel + length s.history
    → IsParent s
    → IsServing (serve e fd (suc fuel) s)
unfolding serve answer_child
serve-IsServing e fd n zero s signalled made h =
    rw (signalled s.history (omega arith)) (inr (refl, IsParent-IsStable s graceful_quit _ refl h))
serve-IsServing e fd n (suc fuel) s signalled made h =
    let q : ℤ = e.os s.history graceful_quit in
    let s1 : Process = log graceful_quit q s in
    let client : ℤ = e.os s1.history (accept fd) in
    let s2 : Process = log (accept fd) client s1 in
    let q' : ℤ = e.os s2.history graceful_quit in
    let s3 : Process = log graceful_quit q' s2 in
    let r : ℤ = e.os s3.history fork in
    let h1 = IsParent-IsStable s graceful_quit q refl h in
    let h2 = IsParent-IsStable s1 (accept fd) client refl h1 in
    let h3 = IsParent-IsStable s2 graceful_quit q' refl h2 in
    if-Over IsServing _ (not (q =ℤ pos 0)) _ _ (λ _. inr (refl, h1))
      (λ _.
        if-Over IsServing _ (not (q' =ℤ pos 0)) _ _ (λ _. inr (refl, h3))
          (λ _.
            if-Over IsServing _ (is_neg client) _ _ (λ _. inl (_, refl))
              (λ _.
                if-Over IsServing _ (r =ℤ pos 0) _ _ (λ _. inl (_, refl))
                  (λ parent.
                    if-Over IsServing _ (is_neg r) _ _ (λ _. inl (_, refl))
                      (λ made_one.
                        serve-IsServing e fd n fuel (log fork r s3) signalled (omega arith)
                          (forked-IsParent s3 r made_one parent h3))))))

-- The process has closed a connection.
abbrev pub HasClosed : Process → Type 0
HasClosed s = (fd : ℤ) × (r : ℤ) × Memᴰ (event (close fd) r) s.history

-- How `main` can be over.
abbrev pub IsServed : Result (Unit {0}) × Process → Type 0
IsServed x = ((code : ℤ) × (x.0 ≡ exits code)) ⊎ ((x.0 ≡ ret tt) × IsParent x.1 × HasClosed x.1)

closed :
    (e : Env) (fd : ℤ) (x : Result (Unit {0}) × Process)
    → IsServing x
    → IsServed (next x (λ _ s. (ret tt, log (close fd) (e.os s.history (close fd)) s)))
closed e fd (ret a, s) (inl (c, eq)) = inl (c, cc)
closed e fd (ret a, s) (inr (_, h)) =
    inr (refl, IsParent-IsStable s (close fd) _ refl h, (fd, _, Memᴰ.head refl))
closed e fd (exits c, s) h = inl (c, refl)
closed e fd (becomes p, s) (inl (c, eq)) = inl (c, cc)
closed e fd (becomes p, s) (inr (eq, _)) = absurd (cc eq)
closed e fd (hangs, s) (inl (c, eq)) = inl (c, cc)
closed e fd (hangs, s) (inr (eq, _)) = absurd (cc eq)
closed e fd (running, s) (inl (c, eq)) = inl (c, cc)
closed e fd (running, s) (inr (eq, _)) = absurd (cc eq)

-- Where the signal arrives before main of the server has made n calls, n + 1 rounds of its loop are
-- enough: it exits, or it returns having closed its socket, and then it is the process that made
-- all the others: no child that answers a client gets back into the loop.
listen-IsServed : (e : Env) (n : ℕ) → IsSignalled e.os n → IsServed (main e (suc n) fresh)
unfolding main
listen-IsServed e n signalled =
    let fd : ℤ = e.os [] socket in
    let s1 : Process = log socket fd fresh in
    let bound : ℤ = e.os s1.history (bind fd port) in
    let s2 : Process = log (bind fd port) bound s1 in
    let listening : ℤ = e.os s2.history (listen fd) in
    let s3 : Process = log (listen fd) listening s2 in
    let h1 = IsParent-IsStable fresh socket fd refl (λ r m. absurd (Memᴰ.not-nil m)) in
    let h3 =
      IsParent-IsStable s2 (listen fd) listening refl
        (IsParent-IsStable s1 (bind fd port) bound refl h1) in
    if-Over IsServed s2 (is_neg bound) _ _ (λ _. inl (_, refl))
      (λ _.
        if-Over IsServed s3 (is_neg listening) _ _ (λ _. inl (_, refl))
          (λ _.
            closed e fd (serve e fd (suc n) s3)
              (serve-IsServing e fd n n s3 signalled (omega arith) h3)))
