-- ===== src/Db/Handler/Process.antt =====
-- broker/db-server/db_handler.c: `main`, over its connection to a server.
use mathlib.Core.List.{Memᴰ}
use sistemas_distribuid.Base.{
  ℕ, zero, suc, ◌+◌, ◌≤◌, ℤ, pos, minus_one, is_neg, ◌=ℤ◌, if◌then◌else◌, not, List, [], ◌∷◌, ◌++◌,
  length, arith, Outcome, true, false, ◌≡◌, refl,
}
use sistemas_distribuid.Base as Base
use sistemas_distribuid.Ipc.Vector.{Vector}
use sistemas_distribuid.Db.Disk.{Disk, Io}
use sistemas_distribuid.Db.Handler.{DbMsg, process_message}
use sistemas_distribuid.Os.{Os, Event, Process, log, close, graceful_quit}
use sistemas_distribuid.Os.Proc.{Proc, ret, running, pure, exit, sys, lift, fresh, ◌>>=◌, ◌>>◌}
use sistemas_distribuid.Os.Keeps.{
  Stop, exited, waiting, unfinished, IsSignalled, After, next-After, if-After,
}
use sistemas_distribuid.Os.Children.{event}

-- What the handler runs in: the answers of the kernel, what `socket_receive_db` returns and leaves
-- in `msg`, the vectors, and what the file system refuses.
pub record Env (V : Type 0) : Type 0 where
  pub os : Os
  pub socket_receive : List Event → ℤ
  pub received : List Event → DbMsg
  pub vector : Vector V
  pub io : Io

-- The files, and what has been sent to the server.
pub record State : Type 0 where
  pub disk : Disk
  pub sent : List DbMsg

unfoldable safe_exit : {A : Type 0} → Os → ℤ → ℤ → Proc A
safe_exit os client_socket error = do sys os (close client_socket); exit error

module _ {V : Type 0} (e : Env V) where
  -- The loop of `main`, for so many rounds at most. That sending a response fails is only logged.
  unfoldable serve : ℤ → ℕ → State → Proc State
  serve client_socket zero w = λ s. (running, s)
  serve client_socket (suc fuel) w = do
    quit ← sys e.os graceful_quit
    if not (quit =ℤ pos 0) then pure w else do
      res ← λ s. (ret (e.socket_receive s.history), s)
      quit ← sys e.os graceful_quit
      if not (quit =ℤ pos 0)
          then safe_exit e.os client_socket minus_one
          else if is_neg res
          then safe_exit e.os client_socket minus_one
          else if res =ℤ pos 0
          then safe_exit e.os client_socket minus_one
          else do
            msg ← λ s. (ret (e.received s.history), s)
            (msg', disk) ← lift (process_message e.vector e.io msg w.disk)
            serve client_socket fuel (record { disk = disk; sent = w.sent ++ msg' ∷ [] })

  -- For the descriptor that it is given.
  unfoldable main : ℤ → ℕ → State → Proc State
  main client_socket fuel w = do
    w' ← serve client_socket fuel w
    sys e.os (close client_socket)
    pure w'

-- The process has closed its connection.
abbrev HasClosed : ℤ → Process → Type 0
HasClosed socket s = (r : ℤ) × Memᴰ (event (close socket) r) s.history

-- It may exit, or wait for ever at the semaphore of the database; its rounds are enough.
abbrev Finishes : Stop → Process → Type 0
Finishes exited s = Unit {0}
Finishes waiting s = Unit {0}
Finishes unfinished s = ⊥

lift-Finishes :
    {A : Type 0} (o : Outcome A) (s : Process) (k : ℕ)
    → k ≤ length s.history
    → After (λ _ t. k ≤ length t.history) Finishes (lift o s)
lift-Finishes (Base.ret a) s k h = h
lift-Finishes Base.blocked s k h = tt
lift-Finishes (Base.exits c) s k h = tt

serve-Finishes :
    {V : Type 0} (e : Env V) (socket : ℤ) (n fuel : ℕ) (w : State) (s : Process)
    → IsSignalled e.os n
    → n ≤ fuel + length s.history
    → After (λ _ _. Unit {0}) Finishes (serve e socket (suc fuel) w s)
unfolding serve safe_exit
serve-Finishes e socket n zero w s signalled made = rw (signalled s.history (omega arith)) tt
serve-Finishes e socket n (suc fuel) w s signalled made =
    let a : ℤ = e.os s.history graceful_quit in
    let s1 : Process = log graceful_quit a s in
    let res : ℤ = e.socket_receive s1.history in
    let a' : ℤ = e.os s1.history graceful_quit in
    let s2 : Process = log graceful_quit a' s1 in
    let k : ℕ = suc (length s.history) in
    let handled = process_message e.vector e.io (e.received s2.history) w.disk in
    if-After _ Finishes _ (not (a =ℤ pos 0)) _ _ (λ _. tt)
      (λ _.
        if-After _ Finishes _ (not (a' =ℤ pos 0)) _ _ (λ _. tt)
          (λ _.
            if-After _ Finishes _ (is_neg res) _ _ (λ _. tt)
              (λ _.
                if-After _ Finishes _ (res =ℤ pos 0) _ _ (λ _. tt)
                  (λ _.
                    next-After (λ _ t. k ≤ length t.history) (λ _ _. Unit {0}) Finishes
                      (lift handled s2) _ (lift-Finishes handled s2 k (omega arith))
                      (λ (msg', disk) t more.
                        serve-Finishes e socket n fuel
                          (record { disk = disk; sent = w.sent ++ msg' ∷ [] }) t signalled
                          (omega (arith, more)))))))

-- Where `main` returns it has closed its connection.
main-HasClosed :
    {V : Type 0} (e : Env V) (socket : ℤ) (n : ℕ) (w : State)
    → IsSignalled e.os n
    → After (λ _. HasClosed socket) Finishes (main e socket (suc n) w fresh)
unfolding main
main-HasClosed e socket n w signalled =
    next-After (λ _ _. Unit {0}) (λ _. HasClosed socket) Finishes (serve e socket (suc n) w fresh) _
      (serve-Finishes e socket n n w fresh signalled (omega arith)) (λ _ s _. (_, Memᴰ.head refl))
