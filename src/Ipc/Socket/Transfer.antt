-- ===== src/Ipc/Socket/Transfer.antt =====
-- broker/common/ipc/socket.c: what its loops transfer.
use mathlib.Core.List.{append_assoc, append-nil}
use sistemas_distribuid.Base.{
  ℕ, zero, suc, ◌+◌, ◌-◌, ◌≤◌, ◌<◌, ◌≡◌, ap, pos, List, ◌++◌, length, take, drop, some, arith,
  take-add, drop-add, take-length, length-take, take-append_le, drop-append_le, length-drop,
  drop-length, dec_lt,
}
use sistemas_distribuid.Ipc.Message.{Msg}
use sistemas_distribuid.Ipc.Socket.{
  Layout, IsLayout, Answers, IsAlive, send_loop, receive_loop, socket_send, socket_receive,
}

module _ (write : Answers) (buffer : List ℕ) (size fuel call n : ℕ) (wire : List ℕ) where
  send_step :
      (r : ℕ)
      → n < size
      → write call (size - n) ≡ pos (suc r)
      → send_loop write buffer size (suc fuel) call n wire
        ≡ send_loop write buffer size fuel
            (suc call)
            (n + suc r)
            (wire ++ take (suc r) (drop n buffer))
  unfolding send_loop
  send_step r more e = ground arith

  send_done : size ≤ n → send_loop write buffer size (suc fuel) call n wire ≡ some (pos n, wire)
  unfolding send_loop
  send_done done = ground arith

-- From a state in which the first `n` bytes are out, the loop sends the others.
send_loop_lem :
    {write : Answers} (buffer : List ℕ) (size fuel call n : ℕ) (wire : List ℕ)
    → IsAlive write
    → length buffer ≡ size
    → n ≤ size
    → size < n + fuel
    → send_loop write buffer size fuel call n (wire ++ take n buffer)
      ≡ some (pos size, wire ++ buffer)
send_loop_lem buffer size zero call n wire alive len le enough = absurd (omega arith)
send_loop_lem {write} buffer size (suc fuel) call n wire alive len le enough =
    elim (dec_lt n size) [
      | yes more ↦
          let (r, e, fits) = alive call (size - n) (omega arith) in
          rw (send_step write buffer size fuel call n _ r more e, append_assoc, take-add)
            (send_loop_lem buffer size fuel (suc call) (n + suc r) wire alive len (omega arith)
              (omega arith))
      | no done ↦
          rw
            (
              send_done write buffer size fuel call n _ (omega arith),
              take-length n buffer (omega arith),
            )
            (ap (λ k. some (pos k, wire ++ buffer)) {x = n} {y = size} (omega arith))
    ]

-- On a connection that stays up socket_send returns the size of the struct, and has sent its bytes
-- in order, however many of them each write took.
pub socket_send_lem :
    {l : Layout Msg} {write : Answers} (m : Msg) (wire : List ℕ)
    → IsLayout l m
    → IsAlive write
    → socket_send l write m wire ≡ some (pos l.size, wire ++ l.bytes m)
unfolding socket_send
socket_send_lem {l} m wire sound alive = rw (append-nil wire) at (
    send_loop_lem (l.bytes m) l.size (suc l.size) 0 0 wire alive sound.sized (omega arith)
      (omega arith))

module _ {M : Type 0} (l : Layout M) (read : Answers) (fuel call : ℕ) (buffer wire : List ℕ) where
  receive_step :
      (n r : ℕ)
      → length buffer ≡ n
      → n < l.size
      → read call (l.size - n) ≡ pos (suc r)
      → receive_loop l read (suc fuel) call buffer wire
        ≡ receive_loop l read fuel (suc call) (buffer ++ take (suc r) wire) (drop (suc r) wire)
  unfolding receive_loop
  receive_step n r len more e = ground (arith, ap (λ k. read call (l.size - k)) len)

  receive_done :
      l.size ≤ length buffer
      → receive_loop l read (suc fuel) call buffer wire
        ≡ some (pos (length buffer), some (l.of_bytes buffer), wire)
  unfolding receive_loop
  receive_done done = ground arith

-- What the loop takes from the stream are the next bytes of the message.
next_bytes :
    (n k : ℕ) (xs rest : List ℕ)
    → n + k ≤ length xs
    → (take n xs ++ take k (drop n xs ++ rest) ≡ take (n + k) xs)
      × (drop k (drop n xs ++ rest) ≡ drop (n + k) xs ++ rest)
next_bytes n k xs rest h =
    let fits : k ≤ length (drop n xs) = omega (arith, length-drop n xs) in
    (
      rw (take-append_le k (drop n xs) rest fits) (take-add n k xs),
      rw (drop-append_le k (drop n xs) rest fits) (ap (λ ys. ys ++ rest) (drop-add n k xs)),
    )

-- From a state in which the first `n` bytes of a message are in, the loop reads the others.
receive_loop_lem :
    {M : Type 0} {l : Layout M} {read : Answers} (m : M) (fuel call n : ℕ) (rest : List ℕ)
    → IsLayout l m
    → IsAlive read
    → n ≤ l.size
    → l.size < n + fuel
    → receive_loop l read fuel call (take n (l.bytes m)) (drop n (l.bytes m) ++ rest)
      ≡ some (pos l.size, some m, rest)
receive_loop_lem {l} m zero call n rest sound alive le enough = absurd (omega arith)
receive_loop_lem {M} {l} {read} m (suc fuel) call n rest sound alive le enough =
    let len : length (take n (l.bytes m)) ≡ n =
      length-take n (l.bytes m) (omega (arith, sound.sized)) in
    elim (dec_lt n l.size) [
      | yes more ↦
          let (r, e, fits) = alive call (l.size - n) (omega arith) in
          let (a, b) = next_bytes n (suc r) (l.bytes m) rest (omega (arith, sound.sized)) in
          rw
            (
              receive_step l read fuel call (take n (l.bytes m)) (drop n (l.bytes m) ++ rest) n r
                  len more e,
              a,
              b,
            )
            (receive_loop_lem m fuel (suc call) (n + suc r) rest sound alive (omega arith)
              (omega arith))
      | no done ↦
          rw
            (
              receive_done l read fuel call (take n (l.bytes m)) _ (omega arith),
              len,
              take-length n (l.bytes m) (omega (arith, sound.sized)),
              drop-length n (l.bytes m) (omega (arith, sound.sized)),
              sound.restored,
            )
            (ap (λ k. some (pos k, some m, rest)) {x = n} {y = l.size} (omega arith))
    ]

-- socket_receive gives back the message that was sent and leaves what follows it, however the
-- bytes are cut by read.
pub socket_receive_lem :
    {l : Layout Msg} {read : Answers} (m : Msg) (rest : List ℕ)
    → IsLayout l m
    → IsAlive read
    → socket_receive l read (l.bytes m ++ rest) ≡ some (pos l.size, some m, rest)
unfolding socket_receive
socket_receive_lem {l} m rest sound alive =
    receive_loop_lem m (suc l.size) 0 0 rest sound alive (omega arith) (omega arith)
