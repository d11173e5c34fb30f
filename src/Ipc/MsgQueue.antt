-- ===== src/Ipc/MsgQueue.antt =====
-- broker/common/ipc/msg_queue.c over the kernel's message queues, which are a parameter.
use sistemas_distribuid.Base.{
  ℤ, pos, minus_one, ◌=ℤ◌, ltb_ℤ, if◌then◌else◌, true, false, ◌≡◌, ◌⊎◌, List, [], ◌∷◌, ◌++◌, none,
  some, find_first, erase_first,
}
use sistemas_distribuid.Ipc.Message.{Msg}

-- What `msgrcv` with `IPC_NOWAIT` comes to: an error, `ENOMSG`, or a message.
pub data Received : Type 0 where
  error : Received
  no_msg : Received
  got : Msg → Received

-- A queue with the state `Q`: `msgsnd` on it, with its result, and `msgrcv` for one type.
pub record MsgQueue (Q : Type 0) : Type 0 where
  pub msgsnd : Msg → Q → ℤ × Q
  pub msgrcv : ℤ → Q → Received × Q
  pub contents : Q → List Msg

abbrev pub mtype_of_msg : Msg → ℤ
mtype_of_msg m = m.mtype

-- What the manual says of `msgsnd`: it returns 0 and appends the message, or returns -1 and leaves
-- the queue; a type that is not positive is refused. And of `msgrcv` for a positive type: it takes
-- the first message of that type, or leaves the queue.
pub record IsMsgQueue {Q : Type 0} (q : MsgQueue Q) : Type 0 where
  pub sent :
      (m : Msg) (s : Q)
      → (((q.msgsnd m s).0 ≡ pos 0) × (q.contents (q.msgsnd m s).1 ≡ q.contents s ++ m ∷ []))
        ⊎ (((q.msgsnd m s).0 ≡ minus_one) × (q.contents (q.msgsnd m s).1 ≡ q.contents s))
  pub taken :
      (type : ℤ) (s : Q)
      → ltb_ℤ (pos 0) type ≡ true
      → (((q.msgrcv type s).0 ≡ error) × (q.contents (q.msgrcv type s).1 ≡ q.contents s))
        ⊎ ((((q.msgrcv type s).0 ≡ no_msg)
              × (find_first mtype_of_msg type (q.contents s) ≡ none)
              × (q.contents (q.msgrcv type s).1 ≡ q.contents s))
            ⊎ ((m : Msg) × ((q.msgrcv type s).0 ≡ got m)
                × (find_first mtype_of_msg type (q.contents s) ≡ some m)
                × (q.contents (q.msgrcv type s).1 ≡ erase_first mtype_of_msg type (q.contents s))))
  pub refuses : (m : Msg) (s : Q) → ltb_ℤ (pos 0) m.mtype ≡ false → q.msgsnd m s ≡ (minus_one, s)

-- `int sendmsg(int id, const void *msgp, size_t msgsz)`
unfoldable pub sendmsg : {Q : Type 0} → MsgQueue Q → Msg → Q → ℤ × Q
sendmsg q m s =
    let (r, s') = q.msgsnd m s in if r =ℤ minus_one then (minus_one, s') else (pos 0, s')

-- `int rcvmsg_no_wait(int id, void *msgp, size_t msgsz, long type)`, with the message that it stores
-- in `*msgp`, whose value before is `m`.
unfoldable pub rcvmsg_no_wait : {Q : Type 0} → MsgQueue Q → ℤ → Msg → Q → ℤ × Msg × Q
rcvmsg_no_wait q type m s =
    let (r, s') = q.msgrcv type s in
    elim r [ error ↦ (minus_one, m, s') | no_msg ↦ (pos 0, m, s') | got m' ↦ (pos 1, m', s') ]
