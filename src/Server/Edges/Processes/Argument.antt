-- ===== src/Server/Edges/Processes/Argument.antt =====
-- broker/server/server.c and req_handler.c: the descriptor of a connection on its way from the child
-- that `fork_req_handler` makes to the `main` of the program that the child becomes.
use mathlib.Core.List.{Memᴰ}
use Prim.Native.Nat.{◌/◌}
use sistemas_distribuid.Base.{
  ℕ, ◌<◌, ℤ, pos, is_neg, ltb, if◌then◌else◌, false, ◌≡◌, refl, ap, List, [], ◌∷◌,
}
use sistemas_distribuid.Os.{Event, Process, fork, req_handler}
use sistemas_distribuid.Os as Os
use sistemas_distribuid.Os.Proc.{becomes}
use sistemas_distribuid.Os.Calls.{execl, snprintf}
use sistemas_distribuid.Os.Children.{event}
use sistemas_distribuid.Os.Argument.{strtol-snprintf}
use sistemas_distribuid.Server.Processes.{Env, handler_child, fork_req_handler}
use sistemas_distribuid.Server.Edges.Processes as Edges

-- Where fork answers 0 and req_handler can be executed, the child for a descriptor below 1000
-- becomes req_handler with one argument. From that, main of req_handler works on the descriptor
-- where it is below 100, and on the descriptor without its last digit from there on.
pub fork_req_handler-argument :
    {Q S : Type 0} (e : Env) (handler : Edges.Env Q S) (server_socket : ℤ) (n fuel : ℕ) (q : Q)
    (s : Process)
    → n < 1000
    → e.os s.history fork ≡ pos 0
    → ((h : List Event) (arguments : List (List ℕ))
        → is_neg (e.os h (Os.execl req_handler arguments)) ≡ false)
    → let x = fork_req_handler e server_socket (pos n) s in
      (x.0 ≡ becomes req_handler)
      × (argument : List ℕ) × (r : ℤ) × Memᴰ
          (event (Os.execl req_handler (argument ∷ [])) r)
          x.1.history
      × (Edges.start handler (argument ∷ []) fuel q
          ≡ Edges.main handler (pos (if ltb n 100 then n else n / 10)) fuel q)
unfolding fork_req_handler handler_child execl Edges.start Edges.read_socket
fork_req_handler-argument e handler server_socket n fuel q s small child works =
    rw (child, works)
      (
        refl,
        snprintf 3 (pos n),
        _,
        Memᴰ.head refl,
        ap (λ socket. Edges.main handler socket fuel q) (strtol-snprintf n small),
      )
