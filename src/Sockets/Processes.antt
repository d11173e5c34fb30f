-- ===== src/Sockets/Processes.antt =====
-- sockets/server.c: `main`, as a process.
pub mod Served
use sistemas_distribuid.Base.{
  ℕ, zero, suc, ℤ, pos, minus_one, is_neg, ◌=ℤ◌, if◌then◌else◌, not, List,
}
use sistemas_distribuid.Sockets.{respond}
use sistemas_distribuid.Os.{Os, Event, socket, bind, listen, accept, fork, close, graceful_quit}
use sistemas_distribuid.Os.Proc.{Proc, ret, running, pure, exit, sys, ◌>>=◌, ◌>>◌}

abbrev pub port : ℕ
port = 8080

-- What the server runs in: the answers of the kernel, the results of `read` and `write` of a child,
-- what it has read, and what its buffer held before.
pub record Env : Type 0 where
  pub os : Os
  pub read : List Event → ℤ
  pub write : List Event → ℤ
  pub received : List Event → List ℕ
  pub before : List Event → List ℕ

module _ (e : Env) where
  -- What a child runs.
  unfoldable pub answer_child : Proc (Unit {0})
  answer_child = do
    h ← λ s. (ret s.history, s)
    exit (respond (e.read h) (e.received h) (e.before h) (e.write h)).0

  -- The loop of `main`, for so many rounds at most.
  unfoldable pub serve : ℤ → ℕ → Proc (Unit {0})
  serve socket_fd zero = λ s. (running, s)
  serve socket_fd (suc fuel) = do
    quit ← sys e.os graceful_quit
    if not (quit =ℤ pos 0) then pure tt else do
      client_fd ← sys e.os (accept socket_fd)
      quit ← sys e.os graceful_quit
      if not (quit =ℤ pos 0) then pure tt else if is_neg client_fd then exit minus_one else do
        req_proc ← sys e.os fork
        if req_proc =ℤ pos 0
            then (do answer_child; serve socket_fd fuel)
            else if is_neg req_proc
            then exit minus_one
            else serve socket_fd fuel

  -- Whether `socket` fails is not looked at.
  unfoldable pub main : ℕ → Proc (Unit {0})
  main fuel = do
    socket_fd ← sys e.os socket
    bound ← sys e.os (bind socket_fd port)
    if is_neg bound then exit minus_one else do
      listening ← sys e.os (listen socket_fd)
      if is_neg listening
          then exit minus_one
          else do serve socket_fd fuel; sys e.os (close socket_fd); pure tt
