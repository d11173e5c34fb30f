-- ===== src/Tests/Register.antt =====
-- A client that registers with the server of the tests of the server, one that it refuses, and one
-- that deletes itself.
use sistemas_distribuid.Base.{
  ◌≡◌, refl, is_neg, if◌then◌else◌, erase_first, true, ℤ, pos, minus_one, List, [], inl, none, some,
  find_first, ret, arith,
}
use sistemas_distribuid.Ipc.Message.{Msg, create, ack_create, ack_destroy}
use sistemas_distribuid.Ipc.MsgQueue.{sendmsg}
use sistemas_distribuid.Server.GlobalId as GlobalId
use sistemas_distribuid.Server.GlobalId.{no_mtype_found_code}
use sistemas_distribuid.Server.Worker as Worker
use sistemas_distribuid.Server.Worker.Deliver.{mtype_of}
use sistemas_distribuid.Server.Edges as Edges
use sistemas_distribuid.Client.BrokerId.{BrokerIds, IsValid, entries, by_local, by_global}
use sistemas_distribuid.Client.BrokerId.Handshake.{IsSettled}
use sistemas_distribuid.Client.Handlers.{World, process_msg, process_message, to_server, respond}
use sistemas_distribuid.Client.Handlers.Delivery.{IsPaired}
use sistemas_distribuid.Client.Library.{Port, create_msg, created, destroy_msg, expect}
use sistemas_distribuid.System.Create.{create-trip}
use sistemas_distribuid.System.Refused.{create-refused}
use sistemas_distribuid.System.Destroy.{destroy-trip}
use sistemas_distribuid.Tests.Setup.{calls-IsUp, queue-IsMsgQueue, message}
use sistemas_distribuid.Tests.Client as Client
use sistemas_distribuid.Tests.Server as Server

abbrev machine : World (List Msg) (List Msg)
machine = Client.world Client.one

abbrev port : Port (List Msg)
port = record Client.port { pid = pos 8 }

abbrev request : Msg
request = create_msg port

abbrev sent : Msg
sent = record request { mtype = pos 60 }

one-IsSettled : IsSettled Client.one
unfolding find_first
one-IsSettled = refl

new_local : find_first by_local (pos 8) (entries Client.one) ≡ none
unfolding find_first
new_local = refl

new_global : find_first by_global (pos 5) (entries Client.one) ≡ none
unfolding find_first
new_global = refl

not_listed : find_first by_global minus_one (entries Client.one) ≡ none
unfolding find_first
not_listed = refl

new_on_server : find_first GlobalId.key (pos 5) (GlobalId.entries Server.two) ≡ none
unfolding find_first
new_on_server = refl

create-trip_example :
    (waiting : BrokerIds) × (process_msg Client.env request machine
      ≡ ret (to_server Client.env request (record machine { ids = waiting })))
    × (Edges.process_message Server.env.queue request (pos 60) []
        ≡ (sendmsg Server.env.queue sent []).1)
    × (answer : Msg) × (state' : Worker.World (List ℤ) (List Msg)) × (Worker.handle Server.env sent
          Server.world
        ≡ ret (true, answer, state'))
    × (answer.mtype ≡ pos 60)
    × (returned : Msg) × (Edges.process_msg Server.to_wire answer []
        ≡ (Server.to_wire returned []).1)
    × (ids : BrokerIds) × (process_message Client.env returned (record machine { ids = waiting })
        ≡ ret
            (respond Client.env (record returned { mtype = pos 8 }) (record machine { ids = ids })))
    × (created port (some (record returned { mtype = pos 8 })) ≡ pos 8)
    × (IsValid ids × IsSettled ids × IsPaired (pos 8) (pos 5) ids)
    × (GlobalId.IsValid state'.ids × (mtype_of state'.ids (pos 5) ≡ pos 60))
create-trip_example =
    create-trip Client.env machine machine port Server.env Server.world Server.to_wire (pos 60)
      (pos 5) Server.subs [] [] calls-IsUp calls-IsUp refl Client.one-IsValid one-IsSettled
      (omega arith) (omega arith) refl new_local Server.two-IsValid (omega arith) (omega arith) refl
      refl (omega arith) refl new_global new_on_server

-- A server whose database takes no user.
abbrev closed : Worker.Env (List ℤ) (List Msg) (List ℤ)
closed = record Server.env { db = record Server.db { db_add_user = λ d. (minus_one, d) } }

create-refused_example :
    (waiting : BrokerIds) × (process_msg Client.env request machine
      ≡ ret (to_server Client.env request (record machine { ids = waiting })))
    × (answer : Msg) × (state' : Worker.World (List ℤ) (List Msg)) × (Worker.handle closed sent
          Server.world
        ≡ ret (true, answer, state'))
    × (state'.ids ≡ Server.two)
    × (returned : Msg) × (Edges.process_msg Server.to_wire answer []
        ≡ (Server.to_wire returned []).1)
    × (process_message Client.env returned (record machine { ids = waiting })
        ≡ ret (record machine { ids = waiting }))
    × (ids : BrokerIds) × (process_msg Client.env
          (message 9 create)
          (record machine { ids = waiting })
        ≡ ret (to_server Client.env (message 9 create) (record machine { ids = ids })))
    × (ids' : BrokerIds) × (process_message Client.env
          (message 5 ack_create)
          (record machine { ids = ids })
        ≡ ret (
            respond Client.env
              (record (message 5 ack_create) { mtype = pos 8 })
              (record machine { ids = ids' })))
create-refused_example =
    create-refused Client.env machine machine port closed Server.world Server.to_wire (pos 60)
      minus_one Server.subs [] (message 9 create) (message 5 ack_create) calls-IsUp calls-IsUp
      queue-IsMsgQueue refl Client.one-IsValid one-IsSettled (omega arith) (omega arith) refl
      Server.two-IsValid refl (inl refl) (omega arith) not_listed refl (omega arith) refl

abbrev leaving : Msg
leaving = record (destroy_msg Client.port (pos 7)) { mtype = pos 3 }

destroy-trip_example :
    (process_msg Client.env (destroy_msg Client.port (pos 7)) machine
      ≡ ret (to_server Client.env leaving machine))
    × (Edges.process_message Server.env.queue leaving (pos 60) []
        ≡ (sendmsg Server.env.queue leaving []).1)
    × (answer : Msg) × (state' : Worker.World (List ℤ) (List Msg)) × (Worker.handle Server.env
          leaving Server.world
        ≡ ret (true, answer, state'))
    × (answer.mtype ≡ mtype_of Server.two (pos 3))
    × (GlobalId.IsValid state'.ids × (mtype_of state'.ids (pos 3) ≡ no_mtype_found_code))
    × (returned : Msg) × (Edges.process_msg Server.to_wire answer []
        ≡ (Server.to_wire returned []).1)
    × (ids : BrokerIds) × (process_message Client.env returned machine
        ≡ ret
            (respond Client.env (record returned { mtype = pos 7 }) (record machine { ids = ids })))
    × (expect Client.port ack_destroy (some (record returned { mtype = pos 7 }))
        ≡ (if is_neg (pos 0) then minus_one else pos 0))
    × IsValid ids
    × (entries ids ≡ (
        if is_neg (pos 0)
        then entries Client.one
        else erase_first by_local (pos 7) (entries Client.one)))
destroy-trip_example =
    destroy-trip Client.env machine machine Client.port Server.env Server.world Server.to_wire
      (pos 7) (pos 3) (pos 60) [] [] calls-IsUp calls-IsUp Client.one-IsValid Client.one-IsValid
      Client.one-IsPaired Client.one-IsPaired Server.two-IsValid Server.two-Distinct Server.known
