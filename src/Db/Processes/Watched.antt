-- ===== src/Db/Processes/Watched.antt =====
-- broker/db-server/db_server.c: the children over a whole run of `main`, and its length.
use sistemas_distribuid.Base.{
  ℕ, zero, suc, ◌+◌, ◌≤◌, ℤ, pos, minus_one, is_neg, ◌=ℤ◌, ◌≡◌, refl, ap, not, ◌⊎◌, ◌||◌, List, [],
  ◌∷◌, ◌++◌, length, inl, inr, arith,
}
use sistemas_distribuid.Ipc.Kernel.{creasem}
use sistemas_distribuid.Os.{Process, fork, log, Os}
use sistemas_distribuid.Os as Os
use sistemas_distribuid.Os.Proc.{fresh, Result, ret, exits, becomes, hangs, running, next}
use sistemas_distribuid.Os.Calls.{accept_client, snprintf, create_server_socket, execl}
use sistemas_distribuid.Os.Keeps.{
  Stop, After, After-map, next-After, if-After, IsStable, Keeps, execl-Keeps,
  create_server_socket-Keeps, OnlyExit,
}
use sistemas_distribuid.Os.Children.{
  AllStopped, AllStopped-IsStable, AllOn-IsStable, fork-AllOn, append-AllOn, refused-IsNoChild,
  child-IsNoChild,
}
use sistemas_distribuid.Server.Processes as Server
use sistemas_distribuid.Server.Processes.Ending.{kill_each-EachStopped}
use sistemas_distribuid.Server.Processes.Watched.{IsWatched, IsWatched-IsStable}
use sistemas_distribuid.Os.Keeps.{IsSignalled}
use sistemas_distribuid.Db.Processes.{
  Env, kill_child, kill_each, kill_childs, safe_exit, handler_child, fork_handler, serve, main,
  db_port,
}

-- The two servers kill their children alike.
kill_each-same : (os : Os) (childs : List ℤ) → kill_each os childs ≡ Server.kill_each os childs
unfolding kill_each kill_child Server.kill_each Server.kill_child
kill_each-same os [] = refl
kill_each-same os (child ∷ childs) =
    ap (λ k s. next (Server.kill_child os child s) (λ _. k)) (kill_each-same os childs)

-- Where the process exits, every child has been stopped; and it does not run out of rounds.
abbrev IsOver : Stop → Process → Type 0
IsOver = OnlyExit AllStopped

safe_exit-IsOver :
    {A : Type 0} (Q : A → Process → Type 0) (e : Env) (socket error : ℤ) (s : Process)
    → IsWatched s
    → After Q IsOver (safe_exit e socket error s)
unfolding safe_exit kill_childs
safe_exit-IsOver Q e socket error s h = rw (kill_each-same e.os s.childs) (
    next-After (λ _. AllStopped) Q IsOver (Server.kill_each e.os s.childs s) _
      (After-map IsOver (Server.kill_each e.os s.childs s)
        (λ _ t (on, each) n forked. each (pos (suc n)) (on n forked))
        (kill_each-EachStopped IsOver e.os s.childs s (AllOn-IsStable s.childs) h))
      (λ _ t k. AllStopped-IsStable t (Os.close socket) (e.os t.history (Os.close socket)) refl k))

-- Every child is on the list, and the process has made so many calls.
abbrev IsReady : ℕ → Process → Type 0
IsReady n s = IsWatched s × (n ≤ length s.history)

IsReady-IsStable : (n : ℕ) → IsStable (IsReady n)
IsReady-IsStable n s c r other (h, k) = (IsWatched-IsStable s c r other h, omega arith)

fork_handler-IsReady :
    (e : Env) (socket client : ℤ) (n : ℕ) → Keeps (IsReady n) IsOver (fork_handler e socket client)
unfolding fork_handler handler_child
fork_handler-IsReady e socket client n s (h, made) =
    let r : ℤ = e.os s.history fork in
    if-After _ IsOver _ (is_neg r) _ _
      (λ refused.
        safe_exit-IsOver (λ _. IsReady n) e socket minus_one (log fork r s)
          (fork-AllOn s.childs s r (refused-IsNoChild r refused) h))
      (λ _.
        if-After _ IsOver _ (r =ℤ pos 0) _ _
          (λ child.
            next-After (λ _. IsWatched) (λ _. IsReady n) IsOver
              (execl e.os Os.db_handler (snprintf 3 client ∷ []) _) _
              (execl-Keeps IsOver IsWatched-IsStable e.os Os.db_handler (snprintf 3 client ∷ []) _ (
                IsWatched-IsStable (log fork r s) (Os.close socket) _ refl
                  (fork-AllOn s.childs s r (child-IsNoChild r child) h)))
              (λ _ t k. safe_exit-IsOver (λ _. IsReady n) e socket minus_one t k))
          (λ _. (
            IsWatched-IsStable (record (log fork r s) { childs = s.childs ++ r ∷ [] }) _ _ refl
                (append-AllOn s.childs s r h),
            omega arith,
          )))

serve-IsReady :
    (e : Env) (socket : ℤ) (n fuel : ℕ) (s : Process)
    → IsSignalled e.os n
    → n ≤ fuel + length s.history
    → IsWatched s
    → After (λ _. IsWatched) IsOver (serve e socket (suc fuel) s)
unfolding serve accept_client
serve-IsReady e socket n zero s signalled made h =
    rw (signalled s.history (omega arith))
      (IsWatched-IsStable s Os.graceful_quit (e.os s.history Os.graceful_quit) refl h)
serve-IsReady e socket n (suc fuel) s signalled made h =
    let q : ℤ = e.os s.history Os.graceful_quit in
    let s1 : Process = log Os.graceful_quit q s in
    let c : ℤ = e.os s1.history (Os.accept socket) in
    let s2 : Process = log (Os.accept socket) c s1 in
    let q' : ℤ = e.os s2.history Os.graceful_quit in
    let s3 : Process = log Os.graceful_quit q' s2 in
    let h1 = IsWatched-IsStable s Os.graceful_quit q refl h in
    let h2 = IsWatched-IsStable s1 (Os.accept socket) c refl h1 in
    let h3 = IsWatched-IsStable s2 Os.graceful_quit q' refl h2 in
    let next_made : ℕ = suc (length s.history) in
    if-After _ IsOver _ (not (q =ℤ pos 0)) _ _ (λ _. h1)
      (λ _.
        if-After _ IsOver _ (not (q' =ℤ pos 0) || is_neg c) _ _ (λ _. h3)
          (λ _.
            next-After (λ _. IsReady next_made) (λ _. IsWatched) IsOver (fork_handler e socket c s3)
              _ (fork_handler-IsReady e socket c next_made s3 (h3, omega arith))
              (λ _ t (k, l). serve-IsReady e socket n fuel t signalled (omega arith) k)))

main-IsOver :
    (e : Env) (n : ℕ) → IsSignalled e.os n → After (λ _ _. ⊥) IsOver (main e (suc n) fresh)
unfolding main
main-IsOver e n signalled =
    if-After _ IsOver _ (is_neg (creasem e.calls)) _ _ (λ _ k m. elim m [ ])
      (λ _.
        next-After (λ _. IsWatched) (λ _ _. ⊥) IsOver (create_server_socket e.os db_port fresh) _
          (create_server_socket-Keeps IsOver IsWatched-IsStable e.os db_port fresh
            (λ k m. elim m [ ]))
          (λ socket t1 h1.
            if-After _ IsOver _ (is_neg socket) _ _
              (λ _. safe_exit-IsOver (λ _ _. ⊥) e socket minus_one t1 h1)
              (λ _.
                next-After (λ _. IsWatched) (λ _ _. ⊥) IsOver (serve e socket (suc n) t1) _
                  (serve-IsReady e socket n n t1 signalled (omega arith) h1)
                  (λ _ t2 h2. safe_exit-IsOver (λ _ _. ⊥) e socket (pos 0) t2 h2))))

-- Where the signal arrives before main of the database server has made n calls, it exits within n
-- + 1 rounds of the loop, having told every child that it forked to stop and waited for each one
-- that the kernel let it tell, or its child has become another program; it neither returns nor
-- waits for ever.
pub main-over :
    (e : Env) (n : ℕ)
    → IsSignalled e.os n
    → ((code : ℤ) × ((main e (suc n) fresh).0 ≡ exits code) × AllStopped (main e (suc n) fresh).1)
      ⊎ ((p : Os.Program) × ((main e (suc n) fresh).0 ≡ becomes p))
main-over e n signalled = over (main e (suc n) fresh) (main-IsOver e n signalled)
  where
    over :
        (x : Result (Unit {0}) × Process)
        → After (λ _ _. ⊥) IsOver x
        → ((code : ℤ) × (x.0 ≡ exits code) × AllStopped x.1)
          ⊎ ((p : Os.Program) × (x.0 ≡ becomes p))
    over (ret a, s) h = elim h [ ]
    over (exits code, s) h = inl (code, refl, h)
    over (becomes p, s) h = inr (p, refl)
    over (hangs, s) h = elim h [ ]
    over (running, s) h = elim h [ ]
