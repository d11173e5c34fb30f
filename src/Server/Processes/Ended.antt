-- ===== src/Server/Processes/Ended.antt =====
-- broker/server/server.c: how long `main` runs.
use sistemas_distribuid.Base.{
  ℕ, zero, suc, ◌+◌, ◌≤◌, ℤ, pos, minus_one, is_neg, ◌=ℤ◌, ◌≡◌, refl, not, ◌||◌, Bool-cases, [],
  ◌∷◌, ◌++◌, length, inl, inr, arith, ◌⊎◌,
}
use sistemas_distribuid.Ipc.Kernel.{Calls, getshm, creasem, creashm}
use sistemas_distribuid.Os.{Os, Event, Process, Program, fork, log}
use sistemas_distribuid.Os as Os
use sistemas_distribuid.Os.Proc.{fresh, Result, ret, exits, becomes, hangs, running, lift}
use sistemas_distribuid.Os.Calls.{
  accept_client, snprintf, getmsg, rcvmsg, create_server_socket, execl,
}
use sistemas_distribuid.Os.Keeps.{
  HasMade, HasMade-IsStable, IsSignalled, Stop, exited, waiting, unfinished, After, After-map,
  next-After, if-After, IsStable, Keeps, bind-Keeps, if-Keeps, getmsg-Keeps, rcvmsg-Keeps,
  execl-Keeps, create_server_socket-Keeps,
}
use sistemas_distribuid.Server.GlobalId.{global_ids_create, global_ids_get}
use sistemas_distribuid.Server.Processes.{
  Env, create_global_ids, create_queues, create_workers, worker_child, handler_child,
  destroy_global_ids, destroy_queues, kill_each, kill_childs, fork_req_handler,
  wait_ring_connection, serve, run, start, main, safe_exit, ring_connection_setup_queue, port,
}
use sistemas_distribuid.Server.Processes.Ending.{kill_each-EachStopped, destroy_queues-Keeps}
use sistemas_distribuid.Server.Processes.Watched.{create_queues-Keeps}

-- The process ends: it does not wait for ever, nor run out of rounds.
abbrev Ends : Stop → Process → Type 0
Ends exited s = Unit {0}
Ends waiting s = ⊥
Ends unfinished s = ⊥

get-Ends : (P : Process → Type 0) (k : Calls) → Keeps P Ends (lift (global_ids_get k))
unfolding global_ids_get
get-Ends P k s h = elim (Bool-cases (is_neg (getshm k))) [ inl b ↦ rw b tt | inr b ↦ rw b h ]

create-Ends : (P : Process → Type 0) (k : Calls) → Keeps P Ends (lift (global_ids_create k))
unfolding global_ids_create
create-Ends P k s h = elim (Bool-cases (is_neg (creasem k))) [
  | inl b ↦ rw b tt
  | inr b ↦ elim (Bool-cases (is_neg (creashm k))) [
    | inl b' ↦ rw (b, b') tt
    | inr b' ↦ rw (b, b') h
  ]
]

destroy_global_ids-Ends :
    (P : Process → Type 0) (e : Env) → IsStable P → Keeps P Ends (destroy_global_ids e)
unfolding destroy_global_ids
destroy_global_ids-Ends P e stable =
    bind-Keeps P Ends (lift (global_ids_get e.table)) _ (get-Ends P e.table) (λ id.
      if-Keeps P Ends (is_neg id) _ _ (λ _ h. h) (λ s h. stable s Os.global_ids_destroy _ refl h))

create_global_ids-Ends : (P : Process → Type 0) (e : Env) → Keeps P Ends (create_global_ids e)
unfolding create_global_ids
create_global_ids-Ends P e =
    bind-Keeps P Ends (lift (global_ids_create e.table)) _ (create-Ends P e.table)
      (λ (id, _). if-Keeps P Ends (is_neg id) _ _ (λ _ _. tt) (λ _ h. h))

safe_exit-Ends :
    {A : Type 0} (Q : A → Process → Type 0) (e : Env) (socket error : ℤ) (s : Process)
    → After Q Ends (safe_exit e socket error s)
unfolding safe_exit kill_childs
safe_exit-Ends Q e socket error s =
    next-After (λ _ _. Unit {0}) Q Ends (kill_each e.os s.childs s) _
      (After-map Ends (kill_each e.os s.childs s) (λ _ _ _. tt)
        (kill_each-EachStopped Ends e.os s.childs s (HasMade-IsStable 0) (omega arith)))
      (λ _ t _.
        next-After (λ _. HasMade 0) Q Ends (destroy_queues e _) _
          (destroy_queues-Keeps Ends (HasMade-IsStable 0) e _ (omega arith))
          (λ _ u l.
            next-After (λ _. HasMade 0) Q Ends (destroy_global_ids e _) _
              (destroy_global_ids-Ends (HasMade 0) e (HasMade-IsStable 0) u l) (λ _ v m. tt)))

create_workers-Ends : (e : Env) (n : ℕ) → Keeps (HasMade n) Ends (create_workers e 1)
unfolding create_workers worker_child
create_workers-Ends e n s h =
    let r : ℤ = e.os s.history fork in
    if-After _ Ends _ (is_neg r) _ _ (λ _. tt)
      (λ _.
        if-After _ Ends _ (r =ℤ pos 0) _ _
          (λ _.
            next-After (λ _. HasMade 0) (λ _. HasMade n) Ends
              (execl e.os Os.worker [] (log fork r s)) _
              (execl-Keeps Ends (HasMade-IsStable 0) e.os Os.worker [] _ (omega arith))
              (λ _ _ _. tt))
          (λ _. omega arith))

fork_req_handler-Ends :
    (e : Env) (socket client : ℤ) (n : ℕ)
    → Keeps (HasMade n) Ends (fork_req_handler e socket client)
unfolding fork_req_handler handler_child
fork_req_handler-Ends e socket client n s h =
    let r : ℤ = e.os s.history fork in
    if-After _ Ends _ (is_neg r) _ _
      (λ _. safe_exit-Ends (λ _. HasMade n) e socket minus_one (log fork r s))
      (λ _.
        if-After _ Ends _ (r =ℤ pos 0) _ _
          (λ _.
            next-After (λ _. HasMade 0) (λ _. HasMade n) Ends
              (execl e.os Os.req_handler (snprintf 3 client ∷ []) _) _
              (execl-Keeps Ends (HasMade-IsStable 0) e.os Os.req_handler (snprintf 3 client ∷ []) _
                (omega arith))
              (λ _ t _. safe_exit-Ends (λ _. HasMade n) e socket minus_one t))
          (λ _. omega arith))

wait_ring_connection-Ends :
    (e : Env) (socket : ℤ) (s : Process)
    → After (λ _. HasMade 0) Ends (wait_ring_connection e socket s)
unfolding wait_ring_connection accept_client
wait_ring_connection-Ends e socket s =
    let r : ℤ = e.os s.history (Os.accept socket) in
    if-After _ Ends _ (is_neg r) _ _
      (λ _. safe_exit-Ends (λ _. HasMade 0) e socket minus_one (log (Os.accept socket) r s))
      (λ _. omega arith)

-- Each round makes a call, so that the flag is set before the rounds run out.
serve-Ends :
    (e : Env) (socket : ℤ) (n fuel : ℕ) (s : Process)
    → IsSignalled e.os n
    → n ≤ fuel + length s.history
    → After (λ _. HasMade 0) Ends (serve e socket (suc fuel) s)
unfolding serve accept_client
serve-Ends e socket n zero s signalled h = rw (signalled s.history (omega arith)) omega arith
serve-Ends e socket n (suc fuel) s signalled h =
    let q : ℤ = e.os s.history Os.graceful_quit in
    let s1 : Process = log Os.graceful_quit q s in
    let c : ℤ = e.os s1.history (Os.accept socket) in
    let s2 : Process = log (Os.accept socket) c s1 in
    let q' : ℤ = e.os s2.history Os.graceful_quit in
    let s3 : Process = log Os.graceful_quit q' s2 in
    let made : ℕ = suc (length s.history) in
    if-After _ Ends _ (not (q =ℤ pos 0)) _ _ (λ _. omega arith)
      (λ _.
        if-After _ Ends _ (not (q' =ℤ pos 0) || is_neg c) _ _ (λ _. omega arith)
          (λ _.
            next-After (λ _. HasMade made) (λ _. HasMade 0) Ends (fork_req_handler e socket c s3) _
              (fork_req_handler-Ends e socket c made s3 (omega arith))
              (λ _ t k. serve-Ends e socket n fuel t signalled (omega arith))))

run-Ends :
    (e : Env) (socket : ℤ) (n : ℕ) (s : Process)
    → IsSignalled e.os n
    → After (λ _ _. ⊥) Ends (run e socket (suc n) s)
unfolding run
run-Ends e socket n s signalled =
    next-After (λ _. HasMade 0) (λ _ _. ⊥) Ends (getmsg e.os _ s) _
      (getmsg-Keeps Ends (HasMade-IsStable 0) e.os ring_connection_setup_queue s (omega arith))
      (λ queue t1 h1.
        next-After (λ _. HasMade 0) (λ _ _. ⊥) Ends (rcvmsg e.os queue t1) _
          (rcvmsg-Keeps Ends (HasMade-IsStable 0) e.os queue t1 h1)
          (λ _ t2 h2.
            next-After (λ _. HasMade 0) (λ _ _. ⊥) Ends (serve e socket (suc n) _) _
              (serve-Ends e socket n n
                (record t2 { childs = t2.childs ++ e.resp_handler_pid t2.history ∷ [] }) signalled
                (omega arith))
              (λ _ t3 h3. safe_exit-Ends (λ _ _. ⊥) e socket (pos 0) t3)))

start-Ends :
    (e : Env) (n : ℕ) (s : Process) → IsSignalled e.os n → After (λ _ _. ⊥) Ends (start e (suc n) s)
unfolding start
start-Ends e n s signalled =
    next-After (λ _. HasMade 0) (λ _ _. ⊥) Ends (create_server_socket e.os port s) _
      (create_server_socket-Keeps Ends (HasMade-IsStable 0) e.os port s (omega arith))
      (λ socket t1 h1.
        if-After _ Ends _ (is_neg socket) _ _ (λ _. safe_exit-Ends (λ _ _. ⊥) e socket minus_one t1)
          (λ _.
            next-After (λ _. HasMade 0) (λ _ _. ⊥) Ends (wait_ring_connection e socket t1) _
              (wait_ring_connection-Ends e socket t1)
              (λ previous t2 h2.
                next-After (λ _. HasMade 0) (λ _ _. ⊥) Ends (fork_req_handler e socket previous t2)
                  _ (fork_req_handler-Ends e socket previous 0 t2 h2)
                  (λ _ t3 _. run-Ends e socket n t3 signalled))))

main-Ends :
    (e : Env) (n : ℕ) (s : Process) → IsSignalled e.os n → After (λ _ _. ⊥) Ends (main e (suc n) s)
unfolding main
main-Ends e n s signalled =
    next-After (λ _. HasMade 0) (λ _ _. ⊥) Ends (create_global_ids e s) _
      (create_global_ids-Ends (HasMade 0) e s (omega arith))
      (λ _ t1 h1.
        next-After (λ _. HasMade 0) (λ _ _. ⊥) Ends (create_queues e t1) _
          (create_queues-Keeps Ends e (HasMade-IsStable 0) (λ _ _. tt) t1 h1)
          (λ _ t2 h2.
            next-After (λ _. HasMade 0) (λ _ _. ⊥) Ends (create_workers e 1 t2) _
              (create_workers-Ends e 0 t2 h2) (λ _ t3 _. start-Ends e n t3 signalled)))

-- Where the signal arrives before the process has made n calls, n + 1 rounds of the loop are
-- enough: main of the server, each of whose calls the kernel answers, exits, or its child becomes
-- another program; it never waits at a semaphore and never returns.
pub main-ends :
    (e : Env) (n : ℕ)
    → IsSignalled e.os n
    → ((code : ℤ) × (s : Process) × (main e (suc n) fresh ≡ (exits code, s)))
      ⊎ ((p : Program) × (s : Process) × (main e (suc n) fresh ≡ (becomes p, s)))
main-ends e n signalled = ended (main e (suc n) fresh) (main-Ends e n fresh signalled)
  where
    ended :
        (x : Result (Unit {0}) × Process)
        → After (λ _ _. ⊥) Ends x
        → ((code : ℤ) × (s : Process) × (x ≡ (exits code, s)))
          ⊎ ((p : Program) × (s : Process) × (x ≡ (becomes p, s)))
    ended (ret a, s) h = elim h [ ]
    ended (exits code, s) h = inl (code, s, refl)
    ended (becomes p, s) h = inr (p, s, refl)
    ended (hangs, s) h = elim h [ ]
    ended (running, s) h = elim h [ ]
