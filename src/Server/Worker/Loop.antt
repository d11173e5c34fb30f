-- ===== src/Server/Worker/Loop.antt =====
-- broker/server/worker.c: the loop of `send_to_subs` and the deliveries.
use sistemas_distribuid.Base.{
  ℕ, zero, suc, ◌≡◌, refl, inl, inr, ℤ, pos, minus_one, is_neg, ◌=ℤ◌, =ℤ_iff, Bool, true, false,
  if◌then◌else◌, List, ◌∷◌, Outcome, ret, Bool-cases,
}
use sistemas_distribuid.Ipc.Message.{Msg}
use sistemas_distribuid.Ipc.Kernel.{IsUp}
use sistemas_distribuid.Ipc.MsgQueue.{IsMsgQueue}
use sistemas_distribuid.Ipc.Vector.{items_from}
use sistemas_distribuid.Server.GlobalId.{no_mtype_found_code, IsValid}
use sistemas_distribuid.Server.GlobalId.Table.{get_mtype_lem}
use sistemas_distribuid.Server.GlobalId.Refine.{view}
use sistemas_distribuid.Server.Worker.{
  Env, World, Round, failed, next, respond, send_one, send_loop, next_server_global_id,
}
use sistemas_distribuid.Server.Worker.Deliver.{
  mtype_of, address, deliveries, deliveries-address, mtype_code-cases, Sends, respond-cases,
  Sent-none, Sent-refused, Sent-cons,
}

module _ {D Q V : Type 0} (e : Env D Q V) (up : IsUp e.calls) where
  module _ (s : ℤ) (msg : Msg) (w : World D Q) (valid : IsValid w.ids) where
    abbrev here : ℤ
    here = mtype_of w.ids s

    abbrev next_server : ℤ
    next_server = mtype_of w.ids next_server_global_id

    -- One round, by the three ways that it can go.
    send_one-local :
        (already_sent : Bool)
        → (here =ℤ no_mtype_found_code) ≡ false
        → is_neg here ≡ false
        → send_one e already_sent s msg w ≡ (
            let (r, w') = respond e (address msg s here) w in
            ret (if is_neg r then failed w' else next already_sent (address msg s here) w'))
    unfolding send_one
    send_one-local already_sent a b = rw (get_mtype_lem s up valid, a, b)

    unknown : (here =ℤ no_mtype_found_code) ≡ true → here ≡ no_mtype_found_code
    unknown = (=ℤ_iff here no_mtype_found_code).0

    send_one-skip :
        (here =ℤ no_mtype_found_code) ≡ true
        → send_one e true s msg w ≡ ret (next true (address msg s here) w)
    unfolding send_one
    send_one-skip a = rw (get_mtype_lem s up valid, unknown a)

    send_one-forward :
        (here =ℤ no_mtype_found_code) ≡ true
        → send_one e false s msg w ≡ (
            let (r, w') = respond e (address msg s next_server) w in
            ret (if is_neg r then failed w' else next true (address msg s next_server) w'))
    unfolding send_one
    send_one-forward a =
        rw (get_mtype_lem s up valid, unknown a, get_mtype_lem next_server_global_id up valid)

  module _ (sound : IsMsgQueue e.queue) where
    -- After a `sendmsg` the loop breaks off, or goes on with the rest.
    respond_then :
        (sent : Bool) (m : Msg) (w : World D Q) (out : List Msg)
        (rest : Bool → Msg → World D Q → Outcome (ℤ × World D Q))
        → Sends e (rest sent m (respond e m w).1) (respond e m w).1 out
        → Sends e
            (elim (let (r, w') = respond e m w in
              if◌then◌else◌ {A = Round D Q} (is_neg r) (failed w') (next sent m w')) [
                | failed w' ↦ ret (minus_one, w')
                | next sent' msg' w' ↦ rest sent' msg' w'
              ])
            w
            (m ∷ out)
    respond_then sent m w out rest (r, w', e₁, done) = elim (respond-cases e sound m w) [
      | inl (ok, c) ↦ (r, w', rw ok e₁, Sent-cons e w (respond e m w).1 w' r m out refl refl c done)
      | inr (err, c) ↦ (
        minus_one,
        (respond e m w).1,
        rw err refl,
        Sent-refused e w (respond e m w).1 m out refl refl c,
      )
    ]

    pub send_loop_lem :
        (v : V) (rounds i : ℕ) (sent : Bool) (msg : Msg) (w : World D Q)
        → IsValid w.ids
        → Sends e
            (send_loop e v rounds i sent msg w)
            w
            (deliveries w.ids msg sent (items_from e.vector v rounds i))
    unfolding send_loop deliveries
    send_loop_lem v zero i sent msg w valid = (pos 0, w, refl, Sent-none e w)
    send_loop_lem v (suc rounds) i sent msg w valid = elim (mtype_code-cases (view w.ids s)) [
      | inl a ↦ elim (Bool-cases sent) [
        | inl again ↦
            rw (again, send_one-skip s msg w valid a, a)
              (after (send_loop_lem v rounds (suc i)) true (mtype_of w.ids s) w valid)
        | inr first ↦
            rw (first, send_one-forward s msg w valid a, a)
              (respond_then true (address msg s (next_server s msg w valid)) w _ loop
                (after (send_loop_lem v rounds (suc i)) true (next_server s msg w valid) _ valid))
      ]
      | inr (a, b) ↦
          rw (send_one-local s msg w valid sent a b, a)
            (respond_then sent (address msg s (mtype_of w.ids s)) w _ loop
              (after (send_loop_lem v rounds (suc i)) sent (mtype_of w.ids s) _ valid))
    ]
      where
        s : ℤ
        s = e.vector.vector_item_at v i

        loop : Bool → Msg → World D Q → Outcome (ℤ × World D Q)
        loop = send_loop e v rounds (suc i)

        after :
            ((sent : Bool) (msg : Msg) (w : World D Q)
              → IsValid w.ids
              → Sends e
                  (loop sent msg w)
                  w
                  (deliveries w.ids msg sent (items_from e.vector v rounds (suc i))))
            → (sent' : Bool) (m : ℤ) (w' : World D Q) → IsValid w'.ids
            → Sends e
                (loop sent' (address msg s m) w')
                w'
                (deliveries w'.ids msg sent' (items_from e.vector v rounds (suc i)))
        after rest sent' m w' valid' =
            rw (deliveries-address w'.ids msg s m sent' (items_from e.vector v rounds (suc i))) at
              (rest sent' (address msg s m) w' valid')
