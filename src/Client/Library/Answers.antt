-- ===== src/Client/Library/Answers.antt =====
-- What the functions of broker.c ask for and return.
use sistemas_distribuid.Base.{
  ℕ, ◌≡◌, refl, ◌⊎◌, inl, inr, ℤ, minus_one, is_neg, false, List, [], ◌∷◌, ◌++◌,
}
use sistemas_distribuid.Ipc.Message.{ack_ok}
use sistemas_distribuid.Ipc.MsgQueue.{IsMsgQueue, sendmsg}
use sistemas_distribuid.Client.Library.{Port, exchange, send, recv, publish, publish_msg, expect}

-- Where both queues are found, publish puts exactly one request into the queue, with the texts cut
-- to their arrays, or none and returns -1; where it puts one, it returns 0 exactly for an answer
-- of type ACK_OK.
publish_lem :
    {Q : Type 0} (port : Port Q) (id : ℤ) (message topic : List ℕ) (q : Q)
    → IsMsgQueue port.queue
    → is_neg port.req_queue ≡ false
    → is_neg port.resp_queue ≡ false
    → let r = publish port id message topic q in
      ((r.0 ≡ minus_one) × (port.queue.contents r.1 ≡ port.queue.contents q))
      ⊎ ((r.0 ≡ expect port ack_ok (port.msgrcv id))
          × (port.queue.contents r.1
              ≡ port.queue.contents q ++ publish_msg port id message topic ∷ []))
unfolding publish exchange send recv sendmsg
publish_lem port id message topic q law req resp =
    elim (law.sent (publish_msg port id message topic) q) [
      | inl (a, b) ↦ inr (rw (req, resp, a) refl, rw (req, a) b)
      | inr (a, b) ↦ inl (rw (req, a) refl, rw (req, a) b)
    ]
