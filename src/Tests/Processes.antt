-- ===== src/Tests/Processes.antt =====
-- The processes of the servers and of the museum, on a kernel that grants what it is asked for.
use mathlib.Core.List.{Memᴰ}
use sistemas_distribuid.Base.{
  ℕ, zero, suc, ◌≤◌, ℤ, pos, leb, ◌≡◌, ◌⊎◌, refl, if◌then◌else◌, List, [], ◌∷◌, length, drop, arith,
}
use sistemas_distribuid.Ipc.Kernel.{creasem, creashm, inisem, getshm, delsem, delshm}
use sistemas_distribuid.Os.{
  Os, Event, Process, Program, fork, connect, graceful_quit, req_handler, execl,
}
use sistemas_distribuid.Os.Proc.{fresh, exits, becomes}
use sistemas_distribuid.Os.Calls.{
  creamsg, getmsg, delmsg, rcvmsg, create_server_socket, accept_client,
}
use sistemas_distribuid.Os.Children.{event, AllStopped, IsForked, IsStopped}
use sistemas_distribuid.Server.Edges.Processes.Argument.{fork_req_handler-argument}
use sistemas_distribuid.Server.Worker.Process.Handled as Handled
use sistemas_distribuid.Server.Worker.Process.Handled.{main-IsHandled}
use sistemas_distribuid.Server.GlobalId.{global_ids_create, global_ids_get, global_ids_destroy}
use sistemas_distribuid.Server.Processes.{
  Env, main, create_global_ids, create_queues, create_workers, fork_req_handler,
  wait_ring_connection, serve, run, start, safe_exit, kill_child, kill_each, kill_childs,
  destroy_queue, destroy_queues, destroy_global_ids,
}
use sistemas_distribuid.Server.Processes.Watched.{main-IsStopped}
use sistemas_distribuid.Server.Processes.Ended.{main-ends}
use sistemas_distribuid.Os.Keeps.{IsSignalled}
use sistemas_distribuid.Db.Processes as Db
use sistemas_distribuid.Db.Processes.Watched.{main-over}
use sistemas_distribuid.Museum.Processes as Museum
use sistemas_distribuid.Museum.Processes.Counted.{forks, waits}
use sistemas_distribuid.Museum.Processes.Run.{main-waits}
use sistemas_distribuid.Client.Processes as Handler
use sistemas_distribuid.Client.Processes.Returned as Returned
use sistemas_distribuid.Server.Edges.Processes as Edges
use sistemas_distribuid.Server.RingConnection as Ring
use sistemas_distribuid.Server.Worker.Process as Worker
use sistemas_distribuid.Ipc.Message.{Msg, create, publish}
use sistemas_distribuid.Tests.Client as Machine
use sistemas_distribuid.Tests.Server as Broker
use sistemas_distribuid.Tests.Setup.{calls, calls-IsUp, message, queue, queue-IsMsgQueue}

-- `fork` answers the number of calls so far, and the signal arrives after 20 calls.
abbrev pub kernel : Os
kernel h fork = pos (length h)
kernel h graceful_quit = if leb 20 (length h) then pos 1 else pos 0
kernel h (connect fd port) = pos 0
kernel h _ = pos 1

pub kernel-IsSignalled : IsSignalled kernel 20
kernel-IsSignalled h late = ground arith

abbrev server : Env
server = record { os = kernel; table = calls; resp_handler_pid = λ h. pos 99 }

abbrev last : Process
last = (main server 21 fresh).1

later : (k : ℕ) {e : Event} (h : List Event) → Memᴰ e (drop k h) → Memᴰ e h
later zero h m = m
later (suc k) [] m = m
later (suc k) (e ∷ h) m = Memᴰ.tail (later k h m)

-- It exits, and the handler of the ring's connection has the id 11.
last-exits : (main server 21 fresh ≡ (exits (pos 0), last)) × IsForked 10 last
unfolding main create_global_ids create_queues create_workers fork_req_handler wait_ring_connection
    serve run start safe_exit kill_child kill_each kill_childs destroy_queue destroy_queues
    destroy_global_ids creamsg getmsg delmsg rcvmsg create_server_socket accept_client
    global_ids_create global_ids_get global_ids_destroy creasem creashm inisem getshm delsem delshm
last-exits = (refl, later 29 last.history (Memᴰ.head refl))

main-IsStopped_example : IsStopped (pos 11) last
main-IsStopped_example = main-IsStopped server 21 (pos 0) last 10 last-exits.0 last-exits.1

main-ends_example :
    ((code : ℤ) × (s : Process) × (main server 21 fresh ≡ (exits code, s)))
    ⊎ ((p : Program) × (s : Process) × (main server 21 fresh ≡ (becomes p, s)))
main-ends_example = main-ends server 20 kernel-IsSignalled

abbrev db_server : Db.Env
db_server = record { os = kernel; calls = calls }

abbrev db_last : Process
db_last = (Db.main db_server 21 fresh).1

main-over_example :
    ((code : ℤ) × ((Db.main db_server 21 fresh).0 ≡ exits code) × AllStopped db_last)
    ⊎ ((p : Program) × ((Db.main db_server 21 fresh).0 ≡ becomes p))
main-over_example = main-over db_server 20 kernel-IsSignalled

main-waits_example :
    ((p : Program) × ((Museum.main kernel fresh).0 ≡ becomes p))
    ⊎ ((code : ℤ) × ((Museum.main kernel fresh).0 ≡ exits code)
        × (forks (Museum.main kernel fresh).1.history ≤ waits (Museum.main kernel fresh).1.history)
        × (length (Museum.main kernel fresh).1.childs ≤ Museum.max_childs))
main-waits_example = main-waits kernel

abbrev handler : Handler.Env (List Msg) (List Msg)
handler = record {
  os = kernel;
  received = λ h. message 7 create;
  socket_receive = λ h. pos 1;
  handlers = Machine.env;
}

abbrev served : Edges.Env (List Msg) (List Msg)
served = record {
  os = kernel;
  received = λ h. message 7 create;
  socket_receive = λ h. pos 1;
  queue = queue;
  socket_send = Broker.to_wire;
}

-- A kernel on which the server is the child of its fork.
abbrev child_kernel : Os
child_kernel h fork = pos 0
child_kernel h _ = pos 1

abbrev child_server : Env
child_server = record { os = child_kernel; table = calls; resp_handler_pid = λ h. pos 99 }

-- A descriptor of three digits loses the last.
fork_req_handler-argument_example :
    let x = fork_req_handler child_server (pos 5) (pos 123) fresh in
    (x.0 ≡ becomes req_handler)
    × (argument : List ℕ) × (r : ℤ) × Memᴰ (event (execl req_handler (argument ∷ [])) r) x.1.history
    × (Edges.start served (argument ∷ []) 21 [] ≡ Edges.main served (pos 12) 21 [])
fork_req_handler-argument_example =
    fork_req_handler-argument child_server served (pos 5) 123 21 [] fresh (omega arith) refl
      (λ h arguments. refl)

abbrev host : Worker.Host (List ℤ) (List Msg) (List ℤ)
host = record { os = kernel; received = λ h. message 3 publish; env = Broker.env }

main-IsHandled_example :
    Handled.IsOver host Broker.world
      (Worker.main host 21 Broker.world fresh)
      (Worker.main host 0 Broker.world fresh)
main-IsHandled_example =
    main-IsHandled host 20 Broker.world calls-IsUp queue-IsMsgQueue Broker.two-IsValid
      kernel-IsSignalled
