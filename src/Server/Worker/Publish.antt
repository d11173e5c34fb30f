-- ===== src/Server/Worker/Publish.antt =====
-- What `send_to_subs` and `process_publish` do on each branch.
use sistemas_distribuid.Base.{
  ◌≢◌, sym, ◌∙◌, pos, Outcome, ◌++◌, take-length, arith, ◌≡◌, refl, ap, ◌⊎◌, inl, inr, ℤ, minus_one,
  is_neg, Bool, true, false, not, List, [], ◌∷◌, map, keep, first, Option, none, some, ret,
  Bool-cases,
}
use sistemas_distribuid.Ipc.Message.{Msg}
use sistemas_distribuid.Ipc.Kernel.{IsUp}
use sistemas_distribuid.Ipc.MsgQueue.{IsMsgQueue}
use sistemas_distribuid.Ipc.Vector.{items}
use sistemas_distribuid.Server.GlobalId.{GlobalIds, IsValid}
use sistemas_distribuid.Server.Worker.{Env, World, send_to_subs, next_server_global_id}
use sistemas_distribuid.Server.Worker.Deliver.{mtype_of, is_local, address, deliveries, Sends}
use sistemas_distribuid.Server.Worker.Loop.{send_loop_lem}

-- Every subscriber with a connection here gets one copy for each time that it is subscribed, in
-- the order of the subscriptions.
deliveries-local :
    (ids : GlobalIds) (msg : Msg) (already_sent : Bool) (subs : List ℤ)
    → keep (λ m. is_local ids m.global_id) (deliveries ids msg already_sent subs)
      ≡ map (λ s. address msg s (mtype_of ids s)) (keep (is_local ids) subs)
unfolding deliveries
deliveries-local ids msg already_sent [] = refl
deliveries-local ids msg already_sent (s ∷ subs) = elim (Bool-cases (is_local ids s)) [
  | inl here ↦
      rw (here, here)
        (ap (◌∷◌ (address msg s (mtype_of ids s))) (deliveries-local ids msg already_sent subs))
  | inr away ↦ rw away (elim (Bool-cases already_sent) [
    | inl again ↦ rw again (rw again at (deliveries-local ids msg already_sent subs))
    | inr once ↦ rw (once, away) (deliveries-local ids msg true subs)
  ])
]

abbrev pub is_remote : GlobalIds → ℤ → Bool
is_remote ids s = not (is_local ids s)

-- The one copy for the next server, for the first subscriber that is not connected here.
abbrev pub forwards : GlobalIds → Msg → Option ℤ → List Msg
forwards ids msg none = []
forwards ids msg (some s) = address msg s (mtype_of ids next_server_global_id) ∷ []

-- Once a copy has gone to the next server, no other goes there.
deliveries-sent :
    (ids : GlobalIds) (msg : Msg) (subs : List ℤ)
    → keep (λ m. is_remote ids m.global_id) (deliveries ids msg true subs) ≡ []
unfolding deliveries
deliveries-sent ids msg [] = refl
deliveries-sent ids msg (s ∷ subs) = elim (Bool-cases (is_local ids s)) [
  | inl here ↦ rw (here, here) (deliveries-sent ids msg subs)
  | inr away ↦ rw away (deliveries-sent ids msg subs)
]

-- All subscribers that are not connected here share one copy, for the first of them.
deliveries-remote :
    (ids : GlobalIds) (msg : Msg) (subs : List ℤ)
    → keep (λ m. is_remote ids m.global_id) (deliveries ids msg false subs)
      ≡ forwards ids msg (first (is_remote ids) subs)
unfolding deliveries
deliveries-remote ids msg [] = refl
deliveries-remote ids msg (s ∷ subs) = elim (Bool-cases (is_local ids s)) [
  | inl here ↦ rw (here, here) (deliveries-remote ids msg subs)
  | inr away ↦
      rw (away, away)
        (ap (◌∷◌ (address msg s (mtype_of ids next_server_global_id)))
          (deliveries-sent ids msg subs))
]

module _ {D Q V : Type 0} (e : Env D Q V) (up : IsUp e.calls) (sound : IsMsgQueue e.queue) where
  -- Where the table is valid, its semaphore and segment are there and the queue behaves as msgsnd
  -- is documented: with the subscribers that the database gives, the deliveries go out in order
  -- until a sendmsg fails, the table stays as it is, and the result is 0 exactly when all are in
  -- the queue; if the database gives none, nothing goes out and the result is -1.
  pub send_to_subs_lem :
      (msg : Msg) (w : World D Q) {r : ℤ} {subscribed : V} {conn : D}
      → IsValid w.ids
      → e.db.db_get_subscribed msg.payload.topic e.vector.vector_new w.conn ≡ (r, subscribed, conn)
      → ((is_neg r ≡ true) × (send_to_subs e msg w ≡ ret (minus_one, record w { conn = conn })))
        ⊎ ((is_neg r ≡ false)
            × Sends e
                (send_to_subs e msg w)
                (record w { conn = conn })
                (deliveries w.ids msg false (items e.vector subscribed)))
  unfolding send_to_subs
  send_to_subs_lem msg w {r} {subscribed} {conn} valid answer = elim (Bool-cases (is_neg r)) [
    | inl bad ↦ inl (bad, rw (answer, bad))
    | inr good ↦ inr (
      good,
      rw (answer, good)
          (send_loop_lem e up sound subscribed (e.vector.vector_size subscribed) 0 false msg
            (record w { conn = conn }) valid),
    )
  ]

  ret-injective :
      {r r' : ℤ} {v v' : World D Q}
      → ◌≡◌ {A = Outcome (ℤ × World D Q)} (ret (r, v)) (ret (r', v'))
      → (r ≡ r') × (v ≡ v')
  ret-injective h = (cc, cc)

  minus_one≢zero : minus_one ≢ pos 0
  minus_one≢zero h = cc

  -- Where the table is valid, its semaphore and segment are there and the queue behaves as msgsnd
  -- is documented: when send_to_subs returns 0, what it has put behind the responses is, for the
  -- clients of this broker, one copy for each subscription in the order of the database, addressed
  -- to the client's handler, and for all other subscribers together one copy for the next server,
  -- made out to the first of them, or none where there are no others.
  pub send_to_subs-delivers :
      (msg : Msg) (w : World D Q) {r : ℤ} {subscribed : V} {conn : D} {w' : World D Q}
      → IsValid w.ids
      → e.db.db_get_subscribed msg.payload.topic e.vector.vector_new w.conn ≡ (r, subscribed, conn)
      → send_to_subs e msg w ≡ ret (pos 0, w')
      → (out : List Msg) × (e.queue.contents w'.resp ≡ e.queue.contents w.resp ++ out)
        × (keep (λ m. is_local w.ids m.global_id) out
            ≡ map
                (λ s. address msg s (mtype_of w.ids s))
                (keep (is_local w.ids) (items e.vector subscribed)))
        × (keep (λ m. is_remote w.ids m.global_id) out
            ≡ forwards w.ids msg (first (is_remote w.ids) (items e.vector subscribed)))
  send_to_subs-delivers msg w {subscribed = subscribed} {conn} {w'} valid answer done =
      let out : List Msg = deliveries w.ids msg false (items e.vector subscribed) in
      elim (send_to_subs_lem msg w valid answer) [
        | inl (bad, eq) ↦ absurd (minus_one≢zero (ret-injective (sym eq ∙ done)).0)
        | inr (good, (r₁, w₁, eq, sent)) ↦
            let (zero_r, same) = ret-injective (sym eq ∙ done) in
            elim sent.verdict [
              | inr (failed, _) ↦ absurd (minus_one≢zero (sym failed ∙ zero_r))
              | inl (_, all) ↦ (
                out,
                ap (λ v. e.queue.contents v.resp) (sym same)
                    ∙ sent.appended
                    ∙ ap (λ xs. e.queue.contents w.resp ++ xs)
                        (take-length sent.count out (omega arith)),
                deliveries-local w.ids msg false (items e.vector subscribed),
                deliveries-remote w.ids msg (items e.vector subscribed),
              )
            ]
      ]
