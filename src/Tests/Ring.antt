-- ===== src/Tests/Ring.antt =====
-- Two servers in a ring: that of the tests of the server, and one whose client has the id 8.
use mathlib.Core.List.Memᴰ as Memᴰ
use sistemas_distribuid.Base.{
  ℕ, zero, suc, ◌+◌, ◌≤◌, ◌≡◌, ◌⊎◌, refl, ap, ℤ, pos, List, [], ◌∷◌, replicate, ret, arith,
  find_first, to_int,
}
use sistemas_distribuid.Ipc.Message.{Msg, publish, ack_ok}
use sistemas_distribuid.Ipc.Kernel.{IsUp, getsem}
use sistemas_distribuid.Ipc.MsgQueue.{IsMsgQueue, sendmsg}
use sistemas_distribuid.Server.GlobalId.{IsValid, get_mtype}
use sistemas_distribuid.Server.GlobalId.Table.{entry}
use sistemas_distribuid.Server.Worker.{
  Env, World, process_msg, handle, process_publish, send_to_subs, send_loop, send_one,
}
use sistemas_distribuid.Server.Worker.Deliver.{address}
use sistemas_distribuid.Server.Edges as Edges
use sistemas_distribuid.Server.Ring.{Hop, IsRing, Way, taken, passed}
use sistemas_distribuid.Server.Ring.Copies.{IsCopy}
use sistemas_distribuid.Server.Ring.Bounded.{Way-IsBounded}
use sistemas_distribuid.Tests.Setup.{calls-IsUp, queue-IsMsgQueue, message}
use sistemas_distribuid.Tests.Server.{env, ring, ring-IsValid}

abbrev other : Env (List ℤ) (List Msg) (List ℤ)
other = record env { broker_id = pos 2 }

abbrev servers : ℕ → Env (List ℤ) (List Msg) (List ℤ)
servers zero = env
servers (suc zero) = other
servers (suc (suc i)) = servers i

servers-IsRing : IsRing 2 servers
servers-IsRing = record {
  closed = λ i. ap servers {x = i + 2} {y = suc (suc i)} (omega arith);
  up = up;
  sound = sound;
}
  where
    up : (i : ℕ) → IsUp (servers i).calls
    up zero = calls-IsUp
    up (suc zero) = calls-IsUp
    up (suc (suc i)) = up i

    sound : (i : ℕ) → IsMsgQueue (servers i).queue
    sound zero = queue-IsMsgQueue
    sound (suc zero) = queue-IsMsgQueue
    sound (suc (suc i)) = sound i

abbrev text : Msg
text = message 3 publish

abbrev own : Msg
own = record text { broker_id = pos 1 }

-- For 8, that the first server does not know, and then for 4, that the second does not know.
abbrev first : Msg
first = address own (pos 8) (pos 8)

abbrev second : Msg
second = address own (pos 4) (pos 4)

abbrev answered : World (List ℤ) (List Msg)
answered = record ring {
  resp =
      address own (pos 8) (pos 90)
      ∷ address own (pos 4) (pos 40)
      ∷ address own (pos 3) (pos 30)
      ∷ record (address own (pos 3) (pos 30)) { type = ack_ok }
      ∷ [];
}

to_other : Hop env other text first
unfolding process_msg handle process_publish send_to_subs send_loop send_one get_mtype getsem
    find_first sendmsg Edges.process_msg Edges.process_message to_int
to_other = record {
  before = ring;
  after = answered;
  valid = ring-IsValid;
  handled = refl;
  out = answered.resp;
  queued = refl;
  copy = address own (pos 8) (pos 90);
  member = Memᴰ.head refl;
  to_next = refl;
  wire = first;
  sent = refl;
  resp_handler_pid = pos 60;
  requests = [];
  entered = refl;
}

-- The table of the other server.
abbrev there : World (List ℤ) (List Msg)
there = record ring {
  ids = record {
    sem = 1;
    count = 2;
    ids = entry (pos 8) (pos 80) ∷ entry (pos 0) (pos 91) ∷ replicate 48 (entry (pos 0) (pos 0));
  };
}

abbrev delivered : World (List ℤ) (List Msg)
delivered = record there { resp = address own (pos 8) (pos 80) ∷ address own (pos 4) (pos 91) ∷ [] }

there-IsValid : IsValid there.ids
there-IsValid = record { free = refl; room = omega arith; whole = refl }

back : Hop other env first second
unfolding process_msg handle process_publish send_to_subs send_loop send_one get_mtype getsem
    find_first sendmsg Edges.process_msg Edges.process_message to_int
back = record {
  before = there;
  after = delivered;
  valid = there-IsValid;
  handled = refl;
  out = delivered.resp;
  queued = refl;
  copy = address own (pos 4) (pos 91);
  member = Memᴰ.tail (Memᴰ.head refl);
  to_next = refl;
  wire = second;
  sent = refl;
  resp_handler_pid = pos 60;
  requests = [];
  entered = refl;
}

abbrev hops : ℕ
hops = 2

abbrev round_trip : Way servers text hops second
round_trip = passed (passed taken to_other) back

Way-IsBounded_example :
    (hops ≤ 2)
    × (((hops ≡ 0) × (second ≡ text)) ⊎ IsCopy text (pos 1) second)
    × (hops ≡ 2 → (w : World (List ℤ) (List Msg)) → process_msg env second w ≡ ret w)
Way-IsBounded_example =
    Way-IsBounded 2 servers text servers-IsRing (omega arith) refl refl refl round_trip
