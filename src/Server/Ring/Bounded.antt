-- ===== src/Server/Ring/Bounded.antt =====
-- How far a publish gets on the ring.
use mathlib.Core.List.{Memᴰ, append_cancel_left, append-nil}
use mathlib.Core.List.Memᴰ as Memᴰ
use sistemas_distribuid.Base.{
  ℕ, suc, ◌≤◌, ◌<◌, ◌≡◌, refl, sym, subst, ap, ◌∙◌, ◌⊎◌, inl, inr, ℤ, pos, ◌=ℤ◌, =ℤ_iff, true,
  false, List, [], ◌≢◌, Bool, ◌∷◌, ◌++◌, length, length-append, Bool-cases, ret, dec_le, arith,
}
use sistemas_distribuid.Ipc.Message.{Msg, publish, ack_ok, ack_error}
use sistemas_distribuid.Ipc.Kernel.{IsUp}
use sistemas_distribuid.Ipc.MsgQueue.{MsgQueue, IsMsgQueue, sendmsg}
use sistemas_distribuid.Server.Worker.{Env, World, process_msg}
use sistemas_distribuid.Server.Worker.Requests.{process_msg-own}
use sistemas_distribuid.Server.Edges as Edges
use sistemas_distribuid.Server.Ring.{on_wire, Hop, IsRing, Way, taken, passed}
use sistemas_distribuid.Server.Ring.Copies.{IsCopy, IsAnswer, carried, process_msg-Queued}

-- A list is not itself with one more entry.
longer {ℓ} : {A : Type ℓ} {B : Type 0} (xs : List A) (a : A) → xs ≡ xs ++ a ∷ [] → B
longer xs a h = absurd (omega (arith, ap length h, length-append xs (a ∷ [])))

same_last {ℓ} : {A : Type ℓ} (xs : List A) (a b : A) → xs ++ a ∷ [] ≡ xs ++ b ∷ [] → a ≡ b
same_last xs a b h = cc (append_cancel_left xs (a ∷ []) (b ∷ []) h)

-- On the wire a copy is under the id of the one that it is for; an answer stays an answer.
sent-IsCopy :
    (msg : Msg) (b : ℤ) (copy wire : Msg)
    → IsCopy msg b copy
    → Edges.process_msg on_wire copy [] ≡ wire ∷ []
    → IsCopy msg b wire
unfolding Edges.process_msg
sent-IsCopy msg b copy wire (t, p, i) h =
    let passed : Msg = record copy { mtype = copy.global_id; type = publish } in
    subst (IsCopy msg b) (same_last [] passed wire (rw t at h)) (refl, p, i)

sent-IsAnswer :
    (copy wire : Msg)
    → IsAnswer copy
    → Edges.process_msg on_wire copy [] ≡ wire ∷ []
    → IsAnswer wire
unfolding Edges.process_msg
sent-IsAnswer copy wire (inl t) h =
    let passed : Msg = record copy { mtype = copy.global_id; type = ack_ok } in
    subst IsAnswer (same_last [] passed wire (rw t at h)) (inl refl)
sent-IsAnswer copy wire (inr t) h =
    let passed : Msg = record copy { mtype = copy.global_id; type = ack_error } in
    subst IsAnswer (same_last [] passed wire (rw t at h)) (inr refl)

-- The request handler drops an answer.
dropped :
    {Q : Type 0} (queue : MsgQueue Q) (wire : Msg) (pid : ℤ) (q : Q)
    → IsAnswer wire
    → Edges.process_message queue wire pid q ≡ q
unfolding Edges.process_message
dropped queue wire pid q (inl t) = rw t
dropped queue wire pid q (inr t) = rw t

clash {ℓ} : {B : Type ℓ} {x : Bool} → x ≡ true → x ≡ false → B
clash h k = absurd (true≢false h k)
  where
    true≢false : {x : Bool} → x ≡ true → x ≢ false
    true≢false h k = cc

ret-injective : {D Q : Type 0} {w w' : World D Q} → ret w ≡ ret w' → w ≡ w'
ret-injective h = cc

module _ {D Q V : Type 0} where
  -- The request handler of the next server passes a copy on as it is.
  entered-copy :
      (next : Env D Q V) (wire msg' : Msg) (pid : ℤ) (q : Q)
      → IsMsgQueue next.queue
      → wire.type ≡ publish
      → next.queue.contents (Edges.process_message next.queue wire pid q)
        ≡ next.queue.contents q ++ msg' ∷ []
      → record wire { type = publish } ≡ msg'
  unfolding Edges.process_message sendmsg
  entered-copy next wire msg' pid q sound t h =
      let passed : Msg = record wire { type = publish } in
      let h' : next.queue.contents (sendmsg next.queue passed q).1
          ≡ next.queue.contents q ++ msg' ∷ [] =
        rw t at h in
      elim (sound.sent passed q) [
        | inl (e, c) ↦ same_last (next.queue.contents q) passed msg' (sym c ∙ (rw e at h'))
        | inr (e, c) ↦ longer (next.queue.contents q) msg' (sym c ∙ (rw e at h'))
      ]

  module _ (here next : Env D Q V) (up : IsUp here.calls) (sound : IsMsgQueue here.queue) where
    abbrev Passes : Msg → Msg → Type 0
    Passes msg msg' =
        ((msg.broker_id =ℤ here.broker_id) ≡ false) × IsCopy msg (carried here msg) msg'

    -- What has been queued between the two states is what the hop took its copy from.
    same_out :
        {msg msg' : Msg} (h : Hop here next msg msg') {w' : World D Q} {out : List Msg}
        → process_msg here msg h.before ≡ ret w'
        → here.queue.contents w'.resp ≡ here.queue.contents h.before.resp ++ out
        → Memᴰ h.copy out
    same_out h {w'} {out} eq c =
        let same : h.after ≡ w' = ret-injective (sym h.handled ∙ eq) in
        subst (Memᴰ h.copy)
          (append_cancel_left (here.queue.contents h.before.resp) h.out out
            (sym h.queued ∙ ap (λ v. here.queue.contents v.resp) same ∙ c))
          h.member

    -- Only a publish that does not carry the id of the server gets on, as a copy.
    hop :
        (msg msg' : Msg)
        → IsMsgQueue next.queue
        → msg.type ≡ publish
        → Hop here next msg msg'
        → Passes msg msg'
    hop msg msg' sound' t h = elim (Bool-cases (msg.broker_id =ℤ here.broker_id)) [
      | inl own ↦ absurd (
          Memᴰ.not-nil (
            same_out h
              (process_msg-own here msg h.before t ((=ℤ_iff msg.broker_id here.broker_id).0 own))
              (sym (append-nil (here.queue.contents h.before.resp)))))
      | inr other ↦
          let (w', eq, (out, c, all)) =
            process_msg-Queued here up sound msg h.before h.valid t other in
          elim (all h.copy (same_out h eq c)) [
            | inl copy ↦
                let (t', p, i) = sent-IsCopy msg (carried here msg) h.copy h.wire copy h.sent in
                (
                  other,
                  subst (IsCopy msg (carried here msg))
                      (entered-copy next h.wire msg' h.resp_handler_pid h.requests sound' t'
                        h.entered)
                      (refl, p, i),
                )
            | inr answer ↦ longer (next.queue.contents h.requests) msg' (
                sym (
                  ap next.queue.contents (
                    dropped next.queue h.wire h.resp_handler_pid h.requests
                      (sent-IsAnswer h.copy h.wire answer h.sent)))
                ∙ h.entered)
          ]
    ]

  module _ (n : ℕ) (servers : ℕ → Env D Q V) (ring : IsRing n servers) where
    home : {i : ℕ} → i ≡ n → (servers i).broker_id ≡ (servers 0).broker_id
    home e = ap (λ s. s.broker_id) (ap servers (omega (arith, e)) ∙ ring.closed 0)

    returned :
        (msg m : Msg) {i : ℕ}
        → i ≡ n
        → IsCopy msg (servers 0).broker_id m
        → (w : World D Q) → process_msg (servers i) m w ≡ ret w
    returned msg m {i} e (t, _, b) w = process_msg-own (servers i) m w t (b ∙ sym (home e))

    -- The next step of a copy that is on its way.
    onward :
        (msg m m' : Msg) {i : ℕ}
        → ((servers 0).broker_id =ℤ pos 0) ≡ false
        → i ≤ n
        → IsCopy msg (servers 0).broker_id m
        → Hop (servers i) (servers (suc i)) m m'
        → (suc i ≤ n) × IsCopy msg (servers 0).broker_id m'
    onward msg m m' {i} nonzero le (t, p, b) h =
        let (other, (t', p', b')) =
          hop (servers i) (servers (suc i)) (ring.up i) (ring.sound i) m m' (ring.sound (suc i)) t
            h in
        (
          elim (dec_le (suc i) n) [
            | yes le' ↦ le'
            | no gt ↦ clash ((=ℤ_iff _ _).1 (b ∙ sym (home {i = i} (omega arith)))) other
          ],
          (t', p' ∙ p, b' ∙ (rw (b, nonzero) refl)),
        )

    -- The first step, from the server that took it.
    outset :
        (msg m' : Msg)
        → 0 < n
        → msg.type ≡ publish
        → msg.broker_id ≡ pos 0
        → Hop (servers 0) (servers 1) msg m'
        → (1 ≤ n) × IsCopy msg (servers 0).broker_id m'
    outset msg m' some_server t first h =
        let (_, (t', p', b')) =
          hop (servers 0) (servers 1) (ring.up 0) (ring.sound 0) msg m' (ring.sound 1) t h in
        (some_server, (t', p', b' ∙ (rw first refl)))

  -- A publish that a client has sent to one of the n servers of a ring, whose broker id is not 0,
  -- gets to each of them at most once on its way: after i connections it is a copy of the same
  -- text under the id of that first server, i is at most n, and where it is n the message is back
  -- at the first server, whose worker drops it without a copy or an answer.
  pub Way-IsBounded :
      (n : ℕ) (servers : ℕ → Env D Q V) (msg : Msg) {i : ℕ} {m : Msg}
      → IsRing n servers
      → 0 < n
      → ((servers 0).broker_id =ℤ pos 0) ≡ false
      → msg.type ≡ publish
      → msg.broker_id ≡ pos 0
      → Way servers msg i m
      → (i ≤ n)
        × (((i ≡ 0) × (m ≡ msg)) ⊎ IsCopy msg (servers 0).broker_id m)
        × (i ≡ n → (w : World D Q) → process_msg (servers i) m w ≡ ret w)
  Way-IsBounded n servers msg ring some_server nonzero t first taken =
      (omega arith, inl (refl, refl), λ e. absurd (omega arith))
  Way-IsBounded n servers msg ring some_server nonzero t first (passed {m' = m'} taken h) =
      let (le, copy) = outset n servers ring msg m' some_server t first h in
      (le, inr copy, λ e w. returned n servers ring msg m' e copy w)
  Way-IsBounded n servers msg ring some_server nonzero t first
        (passed {m = m} {m'} (passed way h₀) h) =
      let (le, was, _) =
        Way-IsBounded n servers msg ring some_server nonzero t first (passed way h₀) in
      elim was [
        | inl (start, _) ↦ absurd (omega (arith, start))
        | inr old ↦
            let (le', copy) = onward n servers ring msg m m' nonzero le old h in
            (le', inr copy, λ e w. returned n servers ring msg m' e copy w)
      ]
