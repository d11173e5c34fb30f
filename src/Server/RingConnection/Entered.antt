-- ===== src/Server/RingConnection/Entered.antt =====
-- broker/server/ring_connection.c: what `main` has done when it returns.
use mathlib.Core.List.{Memᴰ}
use sistemas_distribuid.Base.{
  ℕ, suc, zero, ℤ, negsuc, minus_one, is_neg, ◌≡◌, sym, ap, ◌⊎◌, true, false, List, Option, some,
  arith, if◌then◌else◌,
}
use sistemas_distribuid.Base as Base
use sistemas_distribuid.Ipc.Kernel.{Calls}
use sistemas_distribuid.Server.GlobalId.{GlobalId, GlobalIds, key, get_mtype}
use sistemas_distribuid.Server.Worker.{next_server_global_id}
use sistemas_distribuid.Server.Processes.{ring_connection_setup_queue}
use sistemas_distribuid.Os.{Os, Process, close, msgsnd, ftok, msgget}
use sistemas_distribuid.Os as Os
use sistemas_distribuid.Os.Proc.{ret}
use sistemas_distribuid.Os.Children.{HasForked, event}

-- A child's id is positive.
abbrev Child : ℤ → Process → Type 0
Child pid s = (is_neg pid ≡ false) × HasForked pid s

-- What the process was answered when it looked for the queue of that number, if it got so far.
abbrev pub HasFound : ℕ → ℤ → Process → Type 0
HasFound id queue s =
    (key : ℤ) × Memᴰ (event (ftok id) key) s.history
    × (((is_neg key ≡ true) × (queue ≡ minus_one))
        ⊎ Memᴰ (event (msgget key false) queue) s.history)

-- The child is entered for the next server, and its id is the message that the process has called
-- msgsnd with, on what it has found for the queue of the server.
abbrev pub IsEntered : Calls → GlobalIds → Process → Type 0
IsEntered table ids s =
    (pid : ℤ) × HasForked pid s
    × (get_mtype table next_server_global_id ids ≡ Base.ret (pid, ids))
    × (queue : ℤ) × HasFound ring_connection_setup_queue queue s
    × (r : ℤ) × Memᴰ (event (msgsnd queue pid) r) s.history
