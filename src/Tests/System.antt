-- ===== src/Tests/System.antt =====
-- The machine of the tests of the client, and the server of those of the server.
use mathlib.Core.List.{Memᴰ}
use sistemas_distribuid.System.Publish.{taken, publish-trip}
use sistemas_distribuid.Base.{
  ◌⊎◌, ◌++◌, refl, find_first, ℕ, true, ℤ, pos, minus_one, is_neg, ◌≡◌, if◌then◌else◌, List, [],
  ◌∷◌, some, ret,
}
use sistemas_distribuid.Ipc.Message.{Msg, ack_ok}
use sistemas_distribuid.Ipc.MsgQueue.{sendmsg}
use sistemas_distribuid.Server.Worker as Worker
use sistemas_distribuid.Server.Worker.Deliver.{mtype_of, is_local, address}
use sistemas_distribuid.Server.Edges as Edges
use sistemas_distribuid.Client.BrokerId.{BrokerIds}
use sistemas_distribuid.Client.Handlers.{World, process_msg, process_message, to_server, respond}
use sistemas_distribuid.Client.Library.{subscribe_msg, publish_msg, expect}
use sistemas_distribuid.System.{subscribe-trip}
use sistemas_distribuid.Tests.Setup.{calls-IsUp, queue-IsMsgQueue}
use sistemas_distribuid.Tests.Client as Client
use sistemas_distribuid.Tests.Server as Server

abbrev topic : List ℕ
topic = b'a' ∷ []

abbrev machine : World (List Msg) (List Msg)
machine = Client.world Client.one

abbrev sent : Msg
sent = record (subscribe_msg Client.port (pos 7) topic) { mtype = pos 3 }

subscribe-trip_example :
    (process_msg Client.env (subscribe_msg Client.port (pos 7) topic) machine
      ≡ ret (to_server Client.env sent machine))
    × (Edges.process_message Server.env.queue sent (pos 60) []
        ≡ (sendmsg Server.env.queue sent []).1)
    × (answer : Msg) × (state' : Worker.World (List ℤ) (List Msg)) × (Worker.handle Server.env sent
          Server.world
        ≡ ret (true, answer, state'))
    × (answer.mtype ≡ mtype_of Server.world.ids (pos 3))
    × (returned : Msg) × (Edges.process_msg Server.to_wire answer []
        ≡ (Server.to_wire returned []).1)
    × (ids : BrokerIds) × (process_message Client.env returned machine
        ≡ ret
            (respond Client.env (record returned { mtype = pos 7 }) (record machine { ids = ids })))
    × (expect Client.port ack_ok (some (record returned { mtype = pos 7 }))
        ≡ (if is_neg (pos 0) then minus_one else pos 0))
subscribe-trip_example =
    subscribe-trip Client.env machine machine Client.port Server.env Server.world Server.to_wire
      (pos 7) (pos 3) (pos 60) topic [] [] calls-IsUp calls-IsUp Client.one-IsValid
      Client.one-IsValid Client.one-IsPaired Client.one-IsPaired Server.two-IsValid Server.known

near : is_local Server.two (pos 3) ≡ true
unfolding find_first
near = refl

abbrev request : Msg
request = publish_msg Client.port (pos 7) (b'h' ∷ []) topic

abbrev asked : Msg
asked = record request { mtype = pos 3 }

abbrev copy : Msg
copy = address (taken Server.env request Server.two (pos 3)) (pos 3) (mtype_of Server.two (pos 3))

abbrev delivered : Msg
delivered = record copy { mtype = pos 3 }

publish-trip_example :
    (process_msg Client.env request machine ≡ ret (to_server Client.env asked machine))
    × (Edges.process_message Server.env.queue asked (pos 60) []
        ≡ (sendmsg Server.env.queue asked []).1)
    × (answer : Msg) × (state' : Worker.World (List ℤ) (List Msg)) × (Worker.handle Server.env asked
          Server.world
        ≡ ret (true, answer, state'))
    × (answer.mtype ≡ mtype_of Server.two (pos 3))
    × (returned : Msg) × (Edges.process_msg Server.to_wire answer []
        ≡ (Server.to_wire returned []).1)
    × (ids : BrokerIds) × (process_message Client.env returned machine
        ≡ ret
            (respond Client.env (record returned { mtype = pos 7 }) (record machine { ids = ids })))
    × (Edges.process_msg Server.to_wire copy [] ≡ (Server.to_wire delivered []).1)
    × (process_message Client.env delivered machine
        ≡ ret (record machine {
          incoming =
              (sendmsg Client.env.queue (record delivered { mtype = pos 7 }) machine.incoming).1;
        }))
    × ((expect Client.port ack_ok (some (record returned { mtype = pos 7 })) ≡ minus_one)
        ⊎ ((expect Client.port ack_ok (some (record returned { mtype = pos 7 })) ≡ pos 0)
            × ((out : List Msg) × (state'.resp ≡ [] ++ out) × Memᴰ copy out)))
publish-trip_example =
    publish-trip Client.env machine machine Client.port Server.env Server.world Server.to_wire
      Client.env machine (pos 7) (pos 3) (pos 60) (pos 3) (pos 7) (b'h' ∷ []) topic [] [] calls-IsUp
      calls-IsUp queue-IsMsgQueue calls-IsUp Client.one-IsValid Client.one-IsValid
      Client.one-IsPaired Client.one-IsPaired Server.two-IsValid Server.known refl
      Client.one-IsValid Client.one-IsPaired near (Memᴰ.tail (Memᴰ.tail (Memᴰ.head refl)))
