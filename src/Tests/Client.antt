-- ===== src/Tests/Client.antt =====
-- broker/client: the client 7 of a machine, whose global id is 3.
use sistemas_distribuid.Base.{
  ℕ, ◌≡◌, ◌≢◌, refl, pos, List, [], ◌∷◌, ◌++◌, replicate, none, some, find_first, ret, blocked,
  ◌>>=◌, arith,
}
use sistemas_distribuid.Ipc.Message.{Msg, create, publish, receive, subscribe, ack_ok}
use sistemas_distribuid.Ipc.MsgQueue.{mtype_of_msg}
use sistemas_distribuid.Client.BrokerId.{BrokerId, BrokerIds, IsValid, entries, by_local, by_global}
use sistemas_distribuid.Client.BrokerId.Handshake.{pair, IsSettled}
use sistemas_distribuid.Client.Handlers.{Env, World, process_msg, process_message}
use sistemas_distribuid.Client.Handlers.Delivery.{IsPaired, publish-receive}
use sistemas_distribuid.Client.Handlers.Requests.{register-full}
use sistemas_distribuid.Client.Library.{Port}
use sistemas_distribuid.Tests.Setup.{
  calls, calls-IsUp, queue, queue-IsMsgQueue, queue-IsOpen, message,
}

abbrev table : ℕ → List BrokerId → BrokerIds
table n ids = record { sem = 1; count = n; ids = ids }

abbrev pub one : BrokerIds
one = table 1 (pair (pos 7) (pos 3) ∷ replicate 9 (pair (pos 0) (pos 0)))

abbrev full : BrokerIds
full = table 10 (replicate 10 (pair (pos 7) (pos 3)))

pub one-IsValid : IsValid one
one-IsValid = record { free = refl; room = omega arith; whole = refl }

full-IsValid : IsValid full
full-IsValid = record { free = refl; room = omega arith; whole = refl }

pub one-IsPaired : IsPaired (pos 7) (pos 3) one
unfolding find_first
one-IsPaired = record {
  by_its_local = refl;
  by_its_global = refl;
  local_int = omega arith;
  global_int = omega arith;
  local_pos = refl;
  global_nat = refl;
}

-- The connection to the server is the list of what has been sent.
abbrev pub env : Env (List Msg) (List Msg)
env = record {
  calls = calls;
  unreturned = pos 0;
  stale = message 0 (pos 0);
  queue = queue;
  socket_send = λ m s. (pos 1, s ++ m ∷ []);
}

abbrev pub world : BrokerIds → World (List Msg) (List Msg)
world ids = record { ids = ids; resp = []; incoming = []; conn = [] }

pos≢0 : pos 4 ≢ pos 0
pos≢0 h = cc

subscribe≢create : subscribe ≢ create
subscribe≢create h = cc

missing_local : find_first by_local (pos 8) (entries one) ≡ none
unfolding find_first
missing_local = refl

missing_global : find_first by_global (pos 4) (entries one) ≡ none
unfolding find_first
missing_global = refl

one-IsSettled : IsSettled one
unfolding find_first
one-IsSettled = refl

no_message : find_first mtype_of_msg (pos 7) [] ≡ none
unfolding find_first
no_message = refl

publish-receive_example :
    (w' : World (List Msg) (List Msg)) × ((process_message env (message 3 publish) (world one)
        >>= process_msg env (message 7 receive))
      ≡ ret w')
    × (w'.resp ≡ [] ++ record (message 3 publish) { mtype = pos 7; type = ack_ok } ∷ [])
    × (w'.incoming ≡ [])
    × (w'.ids ≡ one)
    × (w'.conn ≡ [])
publish-receive_example =
    publish-receive env (world one) (pos 7) (pos 3) (message 3 publish) (message 7 receive)
      calls-IsUp queue-IsMsgQueue queue-IsOpen one-IsValid one-IsPaired no_message refl refl refl
      refl

register-full_example :
    (w' : World (List Msg) (List Msg)) × (process_msg env (message 8 create) (world full) ≡ ret w')
    × (w'.resp ≡ [])
    × (w'.conn ≡ [])
    × ((later : Msg) → process_msg env later w' ≡ blocked)
    × ((later : Msg) → process_message env later w' ≡ blocked)
register-full_example =
    register-full env (world full) (message 8 create) calls-IsUp full-IsValid (omega arith) refl

abbrev pub port : Port (List Msg)
port = record {
  req_queue = pos 1;
  resp_queue = pos 2;
  pid = pos 7;
  stale = message 0 (pos 0);
  queue = queue;
  msgrcv = λ id. some (message 7 ack_ok);
}
