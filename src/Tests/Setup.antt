-- ===== src/Tests/Setup.antt =====
-- A concrete kernel, with queues and vectors that are lists.
use sistemas_distribuid.Base.{
  ℕ, zero, suc, ◌≡◌, ◌≢◌, refl, ap, ◌∙◌, inl, inr, ℤ, pos, minus_one, ltb_ℤ, true, if◌then◌else◌,
  Bool-cases, Option-cases, arith, List, [], ◌∷◌, ◌++◌, length, length-append, get_elem?, Option,
  none, some, find_first, erase_first, ◌<◌,
}
use sistemas_distribuid.Ipc.Message.{Msg}
use sistemas_distribuid.Ipc.Kernel.{Calls, IsUp, getsem}
use sistemas_distribuid.Ipc.MsgQueue.{
  MsgQueue, IsMsgQueue, error, no_msg, got, mtype_of_msg, sendmsg,
}
use sistemas_distribuid.Ipc.Vector.{Vector, IsVector}
use sistemas_distribuid.Client.Handlers.Delivery.{IsOpen}

abbrev pub calls : Calls
calls = record {
  ftok = pos 1;
  semget = pos 1;
  shmget = pos 2;
  semctl = pos 0;
  shmctl = pos 0;
  semop_ok = true;
  shmat_ok = true;
}

pub calls-IsUp : IsUp calls
unfolding getsem
calls-IsUp = record { sem_found = refl; mapped = refl; operated = refl }

abbrev pub queue : MsgQueue (List Msg)
queue = record {
  msgsnd = λ m s. if ltb_ℤ (pos 0) m.mtype then (pos 0, s ++ m ∷ []) else (minus_one, s);
  msgrcv = λ type s. elim (find_first mtype_of_msg type s) [
    | none ↦ (no_msg, s)
    | some m ↦ (got m, erase_first mtype_of_msg type s)
  ];
  contents = λ s. s;
}

pub queue-IsMsgQueue : IsMsgQueue queue
queue-IsMsgQueue = record {
  sent = λ m s. elim (Bool-cases (ltb_ℤ (pos 0) m.mtype)) [
    | inl positive ↦ inl (rw positive refl, rw positive refl)
    | inr other ↦ inr (rw other refl, rw other refl)
  ];
  taken = λ type s positive. elim (Option-cases (find_first mtype_of_msg type s)) [
    | inl missing ↦ inr (inl (rw (queue, missing) refl, missing, rw (queue, missing) refl))
    | inr (m, found) ↦ inr (inr (m, rw (queue, found) refl, found, rw (queue, found) refl))
  ];
  refuses = λ m s other. rw other refl;
}

pub queue-IsOpen : IsOpen queue
unfolding sendmsg
queue-IsOpen = record {
  sends = λ m s positive. rw positive refl;
  receives = λ type s e. elim (Option-cases (find_first mtype_of_msg type s)) [
    | inl missing ↦ no_msg≢error (rw (queue, missing) at e)
    | inr (m, found) ↦ got≢error m (rw (queue, found) at e)
  ];
}
  where
    no_msg≢error : no_msg ≢ error
    no_msg≢error h = cc

    got≢error : (m : Msg) → got m ≢ error
    got≢error m h = cc

abbrev or_zero : Option ℤ → ℤ
or_zero none = pos 0
or_zero (some a) = a

abbrev pub vector : Vector (List ℤ)
vector = record {
  vector_new = [];
  vector_add = λ v a. v ++ a ∷ [];
  vector_size = λ v. length v;
  vector_item_at = λ v i. or_zero (get_elem? v i);
}

get_elem?-old :
    (v : List ℤ) (a : ℤ) (i : ℕ) → i < length v → get_elem? (v ++ a ∷ []) i ≡ get_elem? v i
get_elem?-old [] a i h = elim h [ ]
get_elem?-old (x ∷ v) a zero h = refl
get_elem?-old (x ∷ v) a (suc i) h = get_elem?-old v a i (omega arith)

get_elem?-new : (v : List ℤ) (a : ℤ) → get_elem? (v ++ a ∷ []) (length v) ≡ some a
get_elem?-new [] a = refl
get_elem?-new (x ∷ v) a = get_elem?-new v a

pub vector-IsVector : IsVector vector
vector-IsVector = record {
  size-new = refl;
  size-add = λ v a. length-append v (a ∷ []) ∙ omega arith;
  item_at-add_old = λ v a i h. ap or_zero (get_elem?-old v a i h);
  item_at-add_new = λ v a. ap or_zero (get_elem?-new v a);
}

-- A message with a type for the queue, a type, a topic and a text.
abbrev pub message : ℕ → ℤ → Msg
message mtype type = record {
  mtype = pos mtype;
  global_id = pos 0;
  type = type;
  payload = record { topic = b'a' ∷ []; msg = b'h' ∷ b'i' ∷ [] };
  broker_id = pos 0;
}
