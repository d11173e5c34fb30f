-- ===== src/Ipc/Message.antt =====
-- broker/common/message.h. A `char` array is the text before its first NUL: its bytes behind that
-- are never read.
use sistemas_distribuid.Base.{ℕ, ℤ, pos, List, take, ◌-◌}

abbrev pub max_topic_length : ℕ
max_topic_length = 30

abbrev pub max_msg_length : ℕ
max_msg_length = 100

abbrev pub create : ℤ
create = pos 1

abbrev pub subscribe : ℤ
subscribe = pos 2

abbrev pub publish : ℤ
publish = pos 3

abbrev pub receive : ℤ
receive = pos 4

abbrev pub destroy : ℤ
destroy = pos 5

abbrev pub ack_ok : ℤ
ack_ok = pos 6

abbrev pub ack_create : ℤ
ack_create = pos 7

abbrev pub ack_no_msg : ℤ
ack_no_msg = pos 8

abbrev pub ack_destroy : ℤ
ack_destroy = pos 9

abbrev pub ack_error : ℤ
ack_error = pos 10

pub record Payload : Type 0 where
  pub topic : List ℕ
  pub msg : List ℕ

-- `msg_t`. `mtype` is a `long`, the other numbers are of type `int`.
pub record Msg : Type 0 where
  pub mtype : ℤ
  pub global_id : ℤ
  pub type : ℤ
  pub payload : Payload
  pub broker_id : ℤ

-- `strncpy(to, from, n - 1); to[n - 1] = 0;`
unfoldable pub strncpy : ℕ → List ℕ → List ℕ
strncpy n from = take (n - 1) from
