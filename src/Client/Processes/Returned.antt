-- ===== src/Client/Processes/Returned.antt =====
-- broker/client/broker_req_handler.c: what `main` has done when it returns.
use mathlib.Core.List.{Memᴰ}
use sistemas_distribuid.Base.{ℕ, suc, ℤ, ◌≡◌, refl, inl, inr, ◌⊎◌, arith}
use sistemas_distribuid.Client.BrokerId.{broker_id_create, broker_id_destroy}
use sistemas_distribuid.Client.Handlers.{World}
use sistemas_distribuid.Os.{
  Os, Program, Process, Call, log, fork, kill, ftok, msgget, msgctl_rmid, close,
}
use sistemas_distribuid.Os as Os
use sistemas_distribuid.Os.Proc.{Result, ret, exits, becomes, hangs, running, lift, fresh}
use sistemas_distribuid.Os.Calls.{delmsg, create_client_socket}
use sistemas_distribuid.Os.Keeps.{
  Known, Known-IsStable, IsSignalled, exited, waiting, unfinished, Stop, OnlyExit, After,
  After-exits, create_client_socket-Keeps, After-map, next-After, IsStable, And, And-IsStable,
}
use sistemas_distribuid.Os.Children.{HasForked, HasForked-IsStable, IsStopped, IsStopped-IsStable}
use sistemas_distribuid.Client.Processes.{
  Env, init_msg_req_queue, init_msg_resp_queue, init_incoming_msg_queue, create_broker_resp_handler,
  stop_handler, serve, destroy_ids, stop, main, server_port, broker_req_msg, broker_resp_msg,
  incoming_msg_queue,
}
use sistemas_distribuid.Client.Processes.Steps.{
  IsMade, IsDeleted, Any, IsMade-IsStable, IsDeleted-IsStable, lift-Any, init-IsMade,
  create_broker_resp_handler-HasForked, stop_handler-IsStopped, delmsg-IsDeleted, serve-returns,
}

-- The three queues are made, each for its own key, and the child is forked.
abbrev Started : ℤ → ℤ → ℤ → ℤ → Process → Type 0
Started q1 q2 q3 pid =
    And
      (And (And (And Known (IsMade broker_req_msg q1)) (IsMade broker_resp_msg q2))
        (IsMade incoming_msg_queue q3))
      (HasForked pid)

Made-IsStable :
    (q1 q2 q3 : ℤ)
    → IsStable (
        And
          (And (And Known (IsMade broker_req_msg q1)) (IsMade broker_resp_msg q2))
          (IsMade incoming_msg_queue q3))
Made-IsStable q1 q2 q3 =
    And-IsStable
      (And-IsStable (And-IsStable Known-IsStable (IsMade-IsStable broker_req_msg q1))
        (IsMade-IsStable broker_resp_msg q2))
      (IsMade-IsStable incoming_msg_queue q3)

Started-IsStable : (q1 q2 q3 pid : ℤ) → IsStable (Started q1 q2 q3 pid)
Started-IsStable q1 q2 q3 pid = And-IsStable (Made-IsStable q1 q2 q3) (HasForked-IsStable pid)

-- And they are released again.
abbrev Released : ℤ → ℤ → ℤ → ℤ → Process → Type 0
Released q1 q2 q3 pid =
    And (And (And (And (Started q1 q2 q3 pid) (IsStopped pid)) (IsDeleted q1)) (IsDeleted q2))
      (IsDeleted q3)

stop-Released :
    {Q S : Type 0} (e : Env Q S) (socket q1 q2 q3 pid : ℤ) (s : Process)
    → Started q1 q2 q3 pid s
    → After (λ _. Released q1 q2 q3 pid) Any (stop e socket q1 q2 q3 pid s)
unfolding stop destroy_ids
stop-Released e socket q1 q2 q3 pid s h =
    let st0 = Started-IsStable q1 q2 q3 pid in
    let st1 = And-IsStable st0 (IsStopped-IsStable pid) in
    let st2 = And-IsStable st1 (IsDeleted-IsStable q1) in
    let st3 = And-IsStable st2 (IsDeleted-IsStable q2) in
    let st4 = And-IsStable st3 (IsDeleted-IsStable q3) in
    let R = λ (_ : Unit {0}). Released q1 q2 q3 pid in
    next-After (λ _. And (Started q1 q2 q3 pid) (IsStopped pid)) R Any (stop_handler e.os pid s) _
      (stop_handler-IsStopped e.os pid s st0 h)
      (λ _ s1 h1.
        next-After (λ _. And _ (IsDeleted q1)) R Any (delmsg e.os q1 s1) _
          (delmsg-IsDeleted e.os q1 s1 st1 h1)
          (λ _ s2 h2.
            next-After (λ _. And _ (IsDeleted q2)) R Any (delmsg e.os q2 s2) _
              (delmsg-IsDeleted e.os q2 s2 st2 h2)
              (λ _ s3 h3.
                next-After (λ _. And _ (IsDeleted q3)) R Any (delmsg e.os q3 s3) _
                  (delmsg-IsDeleted e.os q3 s3 st3 h3)
                  (λ _ s4 h4.
                    let r : ℤ = broker_id_destroy e.handlers.calls in
                    st4 (log Os.broker_id_destroy r s4) (close socket) _ refl
                      (st4 s4 Os.broker_id_destroy r refl h4)))))

to_Any : (stop : Stop) (s : Process) → OnlyExit Known stop s → Any stop s
to_Any exited s h = tt
to_Any waiting s h = tt
to_Any unfinished s h = h

abbrev Over : Process → Type 0
Over s = (q1 q2 q3 pid : ℤ) × Released q1 q2 q3 pid s

main-Over :
    {Q S : Type 0} (e : Env Q S) (n : ℕ) (w : World Q S) (s : Process)
    → IsSignalled e.os n
    → After (λ _. Over) Any (main e (suc n) w s)
unfolding main init_msg_req_queue init_msg_resp_queue init_incoming_msg_queue
main-Over e n w s signalled =
    let R = λ (_ : Unit {0}). Over in
    next-After (λ _. Known) R Any (create_client_socket e.os server_port s) _
      (After-exits _ {D = OnlyExit Known} (create_client_socket e.os server_port s) to_Any
        (create_client_socket-Keeps Known-IsStable e.os server_port s tt))
      (λ socket s0 h0.
        next-After (λ q. And Known (IsMade broker_req_msg q)) R Any _ _
          (init-IsMade e.os broker_req_msg s0 Known-IsStable h0)
          (λ q1 s1 h1.
            let st1 = And-IsStable Known-IsStable (IsMade-IsStable broker_req_msg q1) in
            next-After (λ q. And (And Known (IsMade broker_req_msg q1)) (IsMade broker_resp_msg q))
              R Any _ _ (init-IsMade e.os broker_resp_msg s1 st1 h1)
              (λ q2 s2 h2.
                let st2 = And-IsStable st1 (IsMade-IsStable broker_resp_msg q2) in
                next-After
                  (λ q.
                    And (And (And Known (IsMade broker_req_msg q1)) (IsMade broker_resp_msg q2))
                      (IsMade incoming_msg_queue q))
                  R Any _ _ (init-IsMade e.os incoming_msg_queue s2 st2 h2)
                  (λ q3 s3 h3.
                    let P =
                      And (And (And Known (IsMade broker_req_msg q1)) (IsMade broker_resp_msg q2))
                        (IsMade incoming_msg_queue q3) in
                    next-After (λ _. P) R Any (lift (broker_id_create e.handlers.calls) s3) _
                      (lift-Any P (broker_id_create e.handlers.calls) s3 h3)
                      (λ (_, ids) s4 h4.
                        next-After (λ pid. And P (HasForked pid)) R Any
                          (create_broker_resp_handler e.os socket s4) _
                          (create_broker_resp_handler-HasForked P e.os socket s4 (λ r. (
                            (
                              (tt, (h4.0.0.1.0, Memᴰ.tail h4.0.0.1.1, Memᴰ.tail h4.0.0.1.2)),
                              (h4.0.1.0, Memᴰ.tail h4.0.1.1, Memᴰ.tail h4.0.1.2),
                            ),
                            (h4.1.0, Memᴰ.tail h4.1.1, Memᴰ.tail h4.1.2),
                          )))
                          (λ pid s5 h5.
                            next-After (λ _. Started q1 q2 q3 pid) R Any
                              (serve e q1 (suc n) (record w { ids = ids }) s5) _
                              (serve-returns e q1 n n (record w { ids = ids }) s5
                                (Started-IsStable q1 q2 q3 pid) signalled (omega arith) h5)
                              (λ _ s6 h6.
                                After-map Any (stop e socket q1 q2 q3 pid s6)
                                  (λ _ t k. (q1, q2, q3, pid, k))
                                  (stop-Released e socket q1 q2 q3 pid s6 h6))))))))

-- How `main` can be over: it has returned and released what it has made, it exits, its child
-- becomes another program, or it waits for ever at the semaphore of the table.
abbrev pub IsOver : Result (Unit {0}) × Process → Type 0
IsOver (r, s) =
    ((r ≡ ret tt) × Over s)
    ⊎ (((code : ℤ) × (r ≡ exits code)) ⊎ (((p : Program) × (r ≡ becomes p)) ⊎ (r ≡ hangs)))

pub main-IsOver :
    {Q S : Type 0} (e : Env Q S) (n : ℕ) (w : World Q S)
    → IsSignalled e.os n
    → IsOver (main e (suc n) w fresh)
main-IsOver e n w signalled = over (main e (suc n) w fresh) (main-Over e n w fresh signalled)
  where
    over : (x : Result (Unit {0}) × Process) → After (λ _. Over) Any x → IsOver x
    over (ret a, s) h = inl (refl, h)
    over (exits code, s) h = inr (inl (code, refl))
    over (becomes p, s) h = inr (inr (inl (p, refl)))
    over (hangs, s) h = inr (inr (inr refl))
    over (running, s) h = elim h [ ]
