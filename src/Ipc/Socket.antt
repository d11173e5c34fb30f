-- ===== src/Ipc/Socket.antt =====
-- broker/common/ipc/socket.c: whole messages over a stream socket. How many bytes each `write` and
-- `read` takes is the peer's and the kernel's choice, and a parameter.
pub mod Transfer
use sistemas_distribuid.Base.{
  ℕ, zero, suc, ◌+◌, ◌-◌, ◌≤◌, ◌<◌, ◌≡◌, ℤ, pos, negsuc, minus_one, Bool, true, false, ltb, List,
  [], ◌++◌, length, take, drop, Option, none, some,
}
use sistemas_distribuid.Ipc.Message.{Msg}

-- The bytes of a struct in memory, as the compiler lays it out, and the struct that they are.
pub record Layout (M : Type 0) : Type 0 where
  pub size : ℕ
  pub bytes : M → List ℕ
  pub of_bytes : List ℕ → M

-- The value fits into the struct: its bytes are as many as the struct has, and give it back.
pub record IsLayout {M : Type 0} (l : Layout M) (m : M) : Type 0 where
  pub sized : length (l.bytes m) ≡ l.size
  pub restored : l.of_bytes (l.bytes m) ≡ m

-- What the n-th call of `write` or `read` returns when it is asked for so many bytes.
abbrev pub Answers : Type 0
Answers = ℕ → ℕ → ℤ

-- The connection stays up: every call moves at least one byte, and no more than it is asked for.
abbrev pub IsAlive : Answers → Type 0
IsAlive answers = (i n : ℕ) → 0 < n → (r : ℕ) × (answers i n ≡ pos (suc r)) × (suc r ≤ n)

-- The loop of `socket_send`: the result, and what the peer has been sent. `none` means that the
-- fuel ran out.
unfoldable pub send_loop : Answers → List ℕ → ℕ → ℕ → ℕ → ℕ → List ℕ → Option (ℤ × List ℕ)
send_loop write buffer size zero call bytes_sent wire = none
send_loop write buffer size (suc fuel) call bytes_sent wire = elim (ltb bytes_sent size) [
  | false ↦ some (pos bytes_sent, wire)
  | true ↦ elim (write call (size - bytes_sent)) [
    | negsuc n ↦ some (minus_one, wire)
    | pos zero ↦ some (pos 0, wire)
    | pos (suc n) ↦
        send_loop write buffer size fuel (suc call) (bytes_sent + suc n)
          (wire ++ take (suc n) (drop bytes_sent buffer))
  ]
]

-- Each round sends at least one byte, so `size` rounds and one more test are enough.
unfoldable pub socket_send : Layout Msg → Answers → Msg → List ℕ → Option (ℤ × List ℕ)
socket_send l write msg wire = send_loop write (l.bytes msg) l.size (suc l.size) 0 0 wire

-- The loop of `socket_receive`: the result, the message that is stored if any, and what is left
-- to read.
unfoldable pub receive_loop :
    {M : Type 0} → Layout M → Answers → ℕ → ℕ → List ℕ → List ℕ → Option (ℤ × Option M × List ℕ)
receive_loop l read zero call buffer wire = none
receive_loop l read (suc fuel) call buffer wire = elim (ltb (length buffer) l.size) [
  | false ↦ some (pos (length buffer), some (l.of_bytes buffer), wire)
  | true ↦ elim (read call (l.size - length buffer)) [
    | negsuc n ↦ some (minus_one, none, wire)
    | pos zero ↦ some (pos 0, none, wire)
    | pos (suc n) ↦
        receive_loop l read fuel (suc call) (buffer ++ take (suc n) wire) (drop (suc n) wire)
  ]
]

unfoldable pub socket_receive : Layout Msg → Answers → List ℕ → Option (ℤ × Option Msg × List ℕ)
socket_receive l read wire = receive_loop l read (suc l.size) 0 [] wire
