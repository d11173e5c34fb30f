-- ===== src/Server/Processes/Watched.antt =====
-- broker/server/server.c: the children over a whole run of `main`.
use mathlib.Core.List.Memᴰ as Memᴰ
use sistemas_distribuid.Base.{
  subst, ◌++◌, ◌∷◌, zero, suc, minus_one, ℕ, ℤ, pos, is_neg, ◌=ℤ◌, ◌≡◌, refl, [], not, ◌||◌,
}
use sistemas_distribuid.Os.{Os, Process, fork, log}
use sistemas_distribuid.Os as Os
use sistemas_distribuid.Os.Proc.{fresh, Result, exits, lift}
use sistemas_distribuid.Os.Calls.{
  snprintf, creamsg, getmsg, rcvmsg, create_server_socket, accept_client, execl,
}
use sistemas_distribuid.Os.Keeps.{
  Stop, exited, waiting, unfinished, AtExit, After, After-exits, next-After, if-After, IsStable,
  Keeps, bind-Keeps, if-Keeps, lift-Keeps, creamsg-Keeps, getmsg-Keeps, rcvmsg-Keeps, execl-Keeps,
  create_server_socket-Keeps,
}
use sistemas_distribuid.Os.Children.{
  IsForked, IsStopped, AllStopped, AllOn, AllStopped-IsStable, AllOn-IsStable, fork-AllOn,
  append-AllOn, AllOn-nil, AllOn-more, refused-IsNoChild, child-IsNoChild,
}
use sistemas_distribuid.Server.GlobalId.{global_ids_create}
use sistemas_distribuid.Server.Processes.{
  Env, create_global_ids, create_queues, create_workers, worker_child, handler_child,
  fork_req_handler, wait_ring_connection, serve, run, start, main, worker_queue, resp_queue,
  ring_connection_setup_queue, port,
}
use sistemas_distribuid.Server.Processes.Ending.{safe_exit-AllStopped}

-- Every child that was forked is on `childs`.
abbrev pub IsWatched : Process → Type 0
IsWatched s = AllOn s.childs s

pub IsWatched-IsStable : IsStable IsWatched
IsWatched-IsStable s c r other h = AllOn-IsStable s.childs s c r other h

create_global_ids-Keeps :
    (P : Process → Type 0) (e : Env) → Keeps P (AtExit P) (create_global_ids e)
unfolding create_global_ids
create_global_ids-Keeps P e =
    bind-Keeps P (AtExit P) (lift (global_ids_create e.table)) _
      (lift-Keeps P (global_ids_create e.table))
      (λ (id, _). if-Keeps P (AtExit P) (is_neg id) _ _ (λ _ h. h) (λ _ h. h))

pub create_queues-Keeps :
    {P : Process → Type 0} (E : Stop → Process → Type 0) (e : Env)
    → IsStable P
    → ((s : Process) → P s → E exited s)
    → Keeps P E (create_queues e)
unfolding create_queues
create_queues-Keeps {P = P} E e stable out =
    bind-Keeps P E (creamsg e.os worker_queue) _ (creamsg-Keeps E stable e.os _) (λ q1.
      if-Keeps P E (is_neg q1) _ _ out (
        bind-Keeps P E (creamsg e.os resp_queue) _ (creamsg-Keeps E stable e.os _) (λ q2.
          if-Keeps P E (is_neg q2) _ _ out (
            bind-Keeps P E (creamsg e.os ring_connection_setup_queue) _
              (creamsg-Keeps E stable e.os _)
              (λ q3. if-Keeps P E (is_neg q3) _ _ out (λ _ h. h))))))

-- From a state where `P` holds, every forked child is on the list when the code returns, and
-- stopped when it ends.
abbrev Guards : {A : Type 0} → (Process → Type 0) → (Process → Result A × Process) → Type 0
Guards P m = (s : Process) → P s → After (λ _. IsWatched) (AtExit AllStopped) (m s)

create_workers-Guards : (e : Env) → Guards (AllOn []) (create_workers e 1)
unfolding create_workers worker_child
create_workers-Guards e s h =
    let r : ℤ = e.os s.history fork in
    if-After _ (AtExit AllStopped) _ (is_neg r) _ _
      (λ refused. AllOn-nil (log fork r s) (fork-AllOn [] s r (refused-IsNoChild r refused) h))
      (λ _.
        if-After _ (AtExit AllStopped) _ (r =ℤ pos 0) _ _
          (λ child.
            next-After (λ _. AllStopped) (λ _. IsWatched) (AtExit AllStopped)
              (execl e.os Os.worker [] (log fork r s)) _
              (execl-Keeps (AtExit AllStopped) AllStopped-IsStable e.os Os.worker [] _
                (AllOn-nil (log fork r s) (fork-AllOn [] s r (child-IsNoChild r child) h)))
              (λ _ _ k. k))
          (λ _. append-AllOn s.childs s r (AllOn-more s.childs s h)))

handler_child-Ends :
    (Q : Unit {0} → Process → Type 0) (e : Env) (socket client : ℤ) (s : Process)
    → IsWatched s
    → After Q (AtExit AllStopped) (handler_child e socket client s)
unfolding handler_child
handler_child-Ends Q e socket client s h =
    next-After (λ _. IsWatched) Q (AtExit AllStopped)
      (execl e.os Os.req_handler (snprintf 3 client ∷ []) _) _
      (execl-Keeps (AtExit AllStopped) IsWatched-IsStable e.os Os.req_handler
        (snprintf 3 client ∷ []) _ (IsWatched-IsStable s (Os.close socket) _ refl h))
      (λ _ t k. safe_exit-AllStopped Q e socket minus_one t k)

fork_req_handler-Guards :
    (e : Env) (socket client : ℤ) → Guards IsWatched (fork_req_handler e socket client)
unfolding fork_req_handler
fork_req_handler-Guards e socket client s h =
    let r : ℤ = e.os s.history fork in
    if-After _ (AtExit AllStopped) _ (is_neg r) _ _
      (λ refused.
        safe_exit-AllStopped (λ _. IsWatched) e socket minus_one (log fork r s)
          (fork-AllOn s.childs s r (refused-IsNoChild r refused) h))
      (λ _.
        if-After _ (AtExit AllStopped) _ (r =ℤ pos 0) _ _
          (λ child.
            handler_child-Ends (λ _. IsWatched) e socket client (log fork r s)
              (fork-AllOn s.childs s r (child-IsNoChild r child) h))
          (λ _.
            IsWatched-IsStable (record (log fork r s) { childs = s.childs ++ r ∷ [] }) _ _ refl
              (append-AllOn s.childs s r h)))

wait_ring_connection-Guards :
    (e : Env) (socket : ℤ) (s : Process)
    → IsWatched s
    → After (λ _. IsWatched) (AtExit AllStopped) (wait_ring_connection e socket s)
unfolding wait_ring_connection accept_client
wait_ring_connection-Guards e socket s h =
    let r : ℤ = e.os s.history (Os.accept socket) in
    let k = IsWatched-IsStable s (Os.accept socket) r refl h in
    if-After _ (AtExit AllStopped) _ (is_neg r) _ _
      (λ _. safe_exit-AllStopped (λ _. IsWatched) e socket minus_one (log (Os.accept socket) r s) k)
      (λ _. k)

serve-Guards : (e : Env) (socket : ℤ) (fuel : ℕ) → Guards IsWatched (serve e socket fuel)
unfolding serve accept_client
serve-Guards e socket zero s h = tt
serve-Guards e socket (suc fuel) s h =
    let q : ℤ = e.os s.history Os.graceful_quit in
    let s1 : Process = log Os.graceful_quit q s in
    let c : ℤ = e.os s1.history (Os.accept socket) in
    let s2 : Process = log (Os.accept socket) c s1 in
    let q' : ℤ = e.os s2.history Os.graceful_quit in
    let s3 : Process = log Os.graceful_quit q' s2 in
    let h1 = IsWatched-IsStable s Os.graceful_quit q refl h in
    let h2 = IsWatched-IsStable s1 (Os.accept socket) c refl h1 in
    let h3 = IsWatched-IsStable s2 Os.graceful_quit q' refl h2 in
    if-After _ (AtExit AllStopped) _ (not (q =ℤ pos 0)) _ _ (λ _. h1)
      (λ _.
        if-After _ (AtExit AllStopped) _ (not (q' =ℤ pos 0) || is_neg c) _ _ (λ _. h3)
          (λ _.
            next-After (λ _. IsWatched) (λ _. IsWatched) (AtExit AllStopped)
              (fork_req_handler e socket c s3) _ (fork_req_handler-Guards e socket c s3 h3)
              (λ _ t k. serve-Guards e socket fuel t k)))

run-Guards : (e : Env) (socket : ℤ) (fuel : ℕ) → Guards IsWatched (run e socket fuel)
unfolding run
run-Guards e socket fuel s h =
    next-After (λ _. IsWatched) (λ _. IsWatched) (AtExit AllStopped) (getmsg e.os _ s) _
      (getmsg-Keeps (AtExit AllStopped) IsWatched-IsStable e.os ring_connection_setup_queue s h)
      (λ queue t1 h1.
        next-After (λ _. IsWatched) (λ _. IsWatched) (AtExit AllStopped) (rcvmsg e.os queue t1) _
          (rcvmsg-Keeps (AtExit AllStopped) IsWatched-IsStable e.os queue t1 h1)
          (λ _ t2 h2.
            next-After (λ _. IsWatched) (λ _. IsWatched) (AtExit AllStopped) (serve e socket fuel _)
              _
              (serve-Guards e socket fuel
                (record t2 { childs = t2.childs ++ e.resp_handler_pid t2.history ∷ [] })
                (λ n forked. Memᴰ.append_left (e.resp_handler_pid t2.history ∷ []) (h2 n forked)))
              (λ _ t3 h3. safe_exit-AllStopped (λ _. IsWatched) e socket (pos 0) t3 h3)))

start-Guards : (e : Env) (fuel : ℕ) → Guards IsWatched (start e fuel)
unfolding start
start-Guards e fuel s h =
    next-After (λ _. IsWatched) (λ _. IsWatched) (AtExit AllStopped)
      (create_server_socket e.os port s) _
      (create_server_socket-Keeps (AtExit AllStopped) IsWatched-IsStable e.os port s h)
      (λ socket t1 h1.
        if-After _ (AtExit AllStopped) _ (is_neg socket) _ _
          (λ _. safe_exit-AllStopped (λ _. IsWatched) e socket minus_one t1 h1)
          (λ _.
            next-After (λ _. IsWatched) (λ _. IsWatched) (AtExit AllStopped)
              (wait_ring_connection e socket t1) _ (wait_ring_connection-Guards e socket t1 h1)
              (λ previous t2 h2.
                next-After (λ _. IsWatched) (λ _. IsWatched) (AtExit AllStopped)
                  (fork_req_handler e socket previous t2) _
                  (fork_req_handler-Guards e socket previous t2 h2)
                  (λ _. run-Guards e socket fuel))))

AtExit-map :
    {P R : Process → Type 0}
    → ((s : Process) → P s → R s)
    → (stop : Stop) (s : Process) → AtExit P stop s
    → AtExit R stop s
AtExit-map k exited s h = k s h
AtExit-map k waiting s h = tt
AtExit-map k unfinished s h = tt

pub main-AllStopped :
    (e : Env) (fuel : ℕ) (s : Process)
    → AllOn [] s
    → After (λ _. IsWatched) (AtExit AllStopped) (main e fuel s)
unfolding main
main-AllStopped e fuel s h =
    next-After (λ _. AllOn []) (λ _. IsWatched) (AtExit AllStopped) (create_global_ids e s) _
      (After-exits _ (create_global_ids e s) (AtExit-map AllOn-nil)
        (create_global_ids-Keeps (AllOn []) e s h))
      (λ _ t1 h1.
        next-After (λ _. AllOn []) (λ _. IsWatched) (AtExit AllStopped) (create_queues e t1) _
          (create_queues-Keeps (AtExit AllStopped) e (AllOn-IsStable []) AllOn-nil t1 h1)
          (λ _ t2 h2.
            next-After (λ _. IsWatched) (λ _. IsWatched) (AtExit AllStopped) (create_workers e 1 t2)
              _ (create_workers-Guards e t2 h2) (λ _. start-Guards e fuel)))

-- Wherever a process that started as main of the server exits, however the kernel answered, it has
-- told every child that it forked to stop, and has waited for each one that the kernel let it
-- tell.
pub main-IsStopped :
    (e : Env) (fuel : ℕ) (code : ℤ) (s : Process) (n : ℕ)
    → main e fuel fresh ≡ (exits code, s)
    → IsForked n s
    → IsStopped (pos (suc n)) s
main-IsStopped e fuel code s n ended forked =
    subst (After (λ _. IsWatched) (AtExit AllStopped)) ended
      (main-AllStopped e fuel fresh (λ k m. elim m [ ])) n forked
