-- ===== src/Tests/Ipc.antt =====
-- broker/common/ipc: a message sent and received one byte at a time.
use sistemas_distribuid.Base.{ℕ, ◌≡◌, refl, ℤ, pos, negsuc, List, [], ◌∷◌, ◌++◌, some}
use sistemas_distribuid.Ipc.Message.{Msg, publish}
use sistemas_distribuid.Ipc.Socket.{Layout, IsLayout, Answers, IsAlive, socket_send, socket_receive}
use sistemas_distribuid.Ipc.Socket.Transfer.{socket_send_lem, socket_receive_lem}
use sistemas_distribuid.Tests.Setup.{message}

abbrev byte_of : ℤ → ℕ
byte_of (pos n) = n
byte_of (negsuc n) = 0

abbrev from_bytes : List ℕ → Msg
from_bytes (a ∷ b ∷ rest) = message a (pos b)
from_bytes bytes = message 0 (pos 0)

-- A struct of two bytes, for messages that differ in their two types.
abbrev layout : Layout Msg
layout = record {
  size = 2;
  bytes = λ m. byte_of m.mtype ∷ byte_of m.type ∷ [];
  of_bytes = from_bytes;
}

abbrev msg : Msg
msg = message 7 publish

msg-IsLayout : IsLayout layout msg
msg-IsLayout = record { sized = refl; restored = refl }

abbrev one_byte : Answers
one_byte call asked = pos 1

one_byte-IsAlive : IsAlive one_byte
one_byte-IsAlive i n h = (0, refl, h)

socket_send_example :
    socket_send layout one_byte msg (9 ∷ []) ≡ some (pos 2, (9 ∷ []) ++ layout.bytes msg)
socket_send_example = socket_send_lem msg (9 ∷ []) msg-IsLayout one_byte-IsAlive

socket_receive_example :
    socket_receive layout one_byte (layout.bytes msg ++ 9 ∷ []) ≡ some (pos 2, some msg, 9 ∷ [])
socket_receive_example = socket_receive_lem msg (9 ∷ []) msg-IsLayout one_byte-IsAlive
