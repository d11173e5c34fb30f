-- ===== src/Server/Ring.antt =====
-- broker/server on every machine of the ring that ring_connection.c closes: the worker of one
-- server, its response handler for the next one, and the request handler there.
pub mod Copies
pub mod Bounded
use mathlib.Core.List.{Memᴰ}
use sistemas_distribuid.Base.{ℕ, suc, ◌+◌, ◌≡◌, ℤ, pos, List, [], ◌∷◌, ◌++◌, ret}
use sistemas_distribuid.Ipc.Message.{Msg}
use sistemas_distribuid.Ipc.Kernel.{IsUp}
use sistemas_distribuid.Ipc.MsgQueue.{IsMsgQueue}
use sistemas_distribuid.Server.GlobalId.{IsValid}
use sistemas_distribuid.Server.Worker.{Env, World, next_server_global_id, process_msg}
use sistemas_distribuid.Server.Worker.Deliver.{mtype_of}
use sistemas_distribuid.Server.Edges as Edges

-- The socket between two servers, by what has been sent on it.
abbrev pub on_wire : Msg → List Msg → ℤ × List Msg
on_wire m s = (pos 1, s ++ m ∷ [])

module _ {D Q V : Type 0} where
  -- A message on its way from the queue of one worker to the queue of the next. The tables, the
  -- connections and the queues are those that the servers have at the time, whatever else they
  -- have handled in between.
  pub record Hop (here next : Env D Q V) (msg msg' : Msg) : Type 0 where
    pub before : World D Q
    pub after : World D Q
    pub valid : IsValid before.ids
    pub handled : process_msg here msg before ≡ ret after
    pub out : List Msg
    pub queued : here.queue.contents after.resp ≡ here.queue.contents before.resp ++ out
    pub copy : Msg
    pub member : Memᴰ copy out
    pub to_next : copy.mtype ≡ mtype_of before.ids next_server_global_id
    pub wire : Msg
    pub sent : Edges.process_msg on_wire copy [] ≡ wire ∷ []
    pub resp_handler_pid : ℤ
    pub requests : Q
    pub entered :
        next.queue.contents (Edges.process_message next.queue wire resp_handler_pid requests)
        ≡ next.queue.contents requests ++ msg' ∷ []

  -- `servers i` is the server that is reached after `i` connections from one of the `n` servers.
  pub record IsRing (n : ℕ) (servers : ℕ → Env D Q V) : Type 0 where
    pub closed : (i : ℕ) → servers (i + n) ≡ servers i
    pub up : (i : ℕ) → IsUp (servers i).calls
    pub sound : (i : ℕ) → IsMsgQueue (servers i).queue

  -- Where a message can get to, and as what, when the server `0` takes it from a client.
  pub data Way (servers : ℕ → Env D Q V) (msg : Msg) : ℕ → Msg → Type 0 where
    taken : Way servers msg 0 msg
    passed :
        {i : ℕ} {m m' : Msg}
        → Way servers msg i m
        → Hop (servers i) (servers (suc i)) m m'
        → Way servers msg (suc i) m'
