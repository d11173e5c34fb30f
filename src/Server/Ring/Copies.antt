-- ===== src/Server/Ring/Copies.antt =====
-- What `process_msg` of worker.c puts into the response queue for a publish.
use mathlib.Core.List.{Memᴰ, append_assoc, append-nil}
use mathlib.Core.List.Memᴰ as Memᴰ
use sistemas_distribuid.Base.{
  ℕ, zero, suc, ◌≡◌, refl, sym, ap, ◌∙◌, ◌⊎◌, inl, inr, ℤ, pos, is_neg, ◌=ℤ◌, to_int, Bool, true,
  false, if◌then◌else◌, List, [], ◌∷◌, ◌++◌, take, Bool-cases, Outcome, ret, ◌>>=◌,
}
use sistemas_distribuid.Ipc.Message.{Msg, publish, ack_ok, ack_error}
use sistemas_distribuid.Ipc.Kernel.{IsUp}
use sistemas_distribuid.Ipc.MsgQueue.{IsMsgQueue}
use sistemas_distribuid.Server.GlobalId.{GlobalIds, IsValid}
use sistemas_distribuid.Server.GlobalId.Table.{get_mtype_lem}
use sistemas_distribuid.Server.Worker.{
  Env, World, next_server_global_id, publish_from, process_publish, handle, process_msg, respond,
}
use sistemas_distribuid.Server.Worker.Deliver.{
  mtype_of, is_local, address, deliveries, respond-cases,
}
use sistemas_distribuid.Server.Worker.Publish.{send_to_subs_lem}

-- A copy of a publish, under the id of a broker.
abbrev pub IsCopy : Msg → ℤ → Msg → Type 0
IsCopy msg b c = (c.type ≡ publish) × (c.payload ≡ msg.payload) × (c.broker_id ≡ b)

abbrev pub IsAnswer : Msg → Type 0
IsAnswer c = (c.type ≡ ack_ok) ⊎ (c.type ≡ ack_error)

deliveries-IsCopy :
    (ids : GlobalIds) (msg : Msg) (already_sent : Bool) (subs : List ℤ) {c : Msg}
    → msg.type ≡ publish
    → Memᴰ c (deliveries ids msg already_sent subs)
    → IsCopy msg msg.broker_id c
unfolding deliveries
deliveries-IsCopy ids msg already_sent [] t m = absurd (Memᴰ.not-nil m)
deliveries-IsCopy ids msg already_sent (s ∷ subs) {c} t m = elim (Bool-cases (is_local ids s)) [
  | inl here ↦
      copied (mtype_of ids s) (deliveries ids msg already_sent subs)
        (deliveries-IsCopy ids msg already_sent subs t) (rw here at m)
  | inr away ↦ elim (Bool-cases already_sent) [
    | inl again ↦ deliveries-IsCopy ids msg true subs t (rw (away, again) at m)
    | inr once ↦
        copied (mtype_of ids next_server_global_id) (deliveries ids msg true subs)
          (deliveries-IsCopy ids msg true subs t) (rw (away, once) at m)
  ]
]
  where
    copied :
        (a : ℤ) (rest : List Msg)
        → (Memᴰ c rest → IsCopy msg msg.broker_id c)
        → Memᴰ c (address msg s a ∷ rest)
        → IsCopy msg msg.broker_id c
    copied a rest next m = elim (Memᴰ.cases_cons m) [
      | inl e ↦ rw e (t, refl, refl)
      | inr later ↦ next later
    ]

Memᴰ-take {ℓ} : {A : Type ℓ} {a : A} (n : ℕ) (xs : List A) → Memᴰ a (take n xs) → Memᴰ a xs
Memᴰ-take zero xs m = absurd (Memᴰ.not-nil m)
Memᴰ-take (suc n) [] m = m
Memᴰ-take (suc n) (x ∷ xs) m = elim (Memᴰ.cases_cons m) [
  | inl e ↦ Memᴰ.head e
  | inr later ↦ Memᴰ.tail (Memᴰ-take n xs later)
]

module _ {D Q V : Type 0} (e : Env D Q V) where
  -- What the response queue has taken up between two states, all of it of one kind.
  abbrev pub Queued : (Msg → Type 0) → World D Q → World D Q → Type 0
  Queued P w w' =
      (out : List Msg) × (e.queue.contents w'.resp ≡ e.queue.contents w.resp ++ out)
      × ((c : Msg) → Memᴰ c out → P c)

  pub Queued-none : (P : Msg → Type 0) (w w' : World D Q) → w'.resp ≡ w.resp → Queued P w w'
  Queued-none P w w' h =
      ([], ap e.queue.contents h ∙ sym (append-nil _), λ c m. absurd (Memᴰ.not-nil m))

  -- The id under which a publish goes on.
  abbrev pub carried : Msg → ℤ
  carried msg = if msg.broker_id =ℤ pos 0 then e.broker_id else msg.broker_id

  module _ (up : IsUp e.calls) (sound : IsMsgQueue e.queue) where
    respond-Queued :
        (P : Msg → Type 0) (m : Msg) (w w' : World D Q)
        → P m
        → Queued P w w'
        → Queued P w (respond e m w').1
    respond-Queued P m w w' p (out, c, all) = elim (respond-cases e sound m w') [
      | inl (_, took) ↦ (
        out ++ m ∷ [],
        took ∙ ap (λ xs. xs ++ m ∷ []) c ∙ append_assoc _ out (m ∷ []),
        λ x q. elim (Memᴰ.append_cases out q) [
          | inl old ↦ all x old
          | inr new ↦ rw (Memᴰ.eq_of_singleton new) p
        ],
      )
      | inr (_, kept) ↦ (out, kept ∙ c, all)
    ]

    -- The publish that follows the test of the broker id queues copies, and has an answer.
    abbrev Published : Bool → Msg → World D Q → Outcome (Bool × Msg × World D Q) → Type 0
    Published send_ack msg w o =
        (m : Msg) × (w' : World D Q) × (o ≡ ret (send_ack, m, w'))
        × IsAnswer m
        × Queued (IsCopy msg msg.broker_id) w w'

    publish_from-Published :
        (send_ack : Bool) (msg : Msg) (w : World D Q)
        → IsValid w.ids
        → msg.type ≡ publish
        → Published send_ack msg w (publish_from e send_ack msg w)
    unfolding publish_from
    publish_from-Published send_ack msg w valid t =
        let id : ℤ = to_int msg.mtype in
        let known_as : ℤ = mtype_of w.ids id in
        let msg' : Msg = record msg { global_id = id; mtype = known_as } in
        rw (get_mtype_lem id up valid) (elim (Bool-cases (is_neg known_as)) [
          | inl unknown ↦ rw unknown (
            record msg' { type = ack_error },
            w,
            refl,
            inr refl,
            Queued-none (IsCopy msg msg.broker_id) w w refl,
          )
          | inr known ↦ rw known (elim (send_to_subs_lem e up sound msg' w valid refl) [
            | inl (_, eq) ↦
                let w' : World D Q = record w {
                  conn = (e.db.db_get_subscribed msg.payload.topic e.vector.vector_new w.conn).2;
                } in
                rw eq (_, w', refl, inr refl, Queued-none (IsCopy msg msg.broker_id) w w' refl)
            | inr (_, (r, w', eq, sent)) ↦ rw eq (
              record msg' { type = if is_neg r then ack_error else ack_ok },
              w',
              refl,
              answered (is_neg r),
              (
                _,
                sent.appended,
                λ c m. deliveries-IsCopy w.ids msg' false _ t (Memᴰ-take sent.count _ m),
              ),
            )
          ])
        ])
      where
        answered :
            (b : Bool)
            → ((if b then ack_error else ack_ok) ≡ ack_ok)
              ⊎ ((if b then ack_error else ack_ok) ≡ ack_error)
        answered true = inr refl
        answered false = inl refl

    abbrev Goes : Msg → ℤ → World D Q → Outcome (World D Q) → Type 0
    Goes msg b w o =
        (w' : World D Q) × (o ≡ ret w') × Queued (λ c. IsCopy msg b c ⊎ IsAnswer c) w w'

    -- The end of `process_msg`.
    responded :
        (send_ack : Bool) (msg : Msg) (w : World D Q) (o : Outcome (Bool × Msg × World D Q))
        → Published send_ack msg w o
        → Goes msg msg.broker_id w (o >>= λ (b, m, w'). ret (if b then (respond e m w').1 else w'))
    responded true msg w o (m, w', eq, ack, (out, c, all)) = rw eq (
      (respond e m w').1,
      refl,
      respond-Queued (λ c. IsCopy msg msg.broker_id c ⊎ IsAnswer c) m w w' (inr ack)
          (out, c, λ x q. inl (all x q)),
    )
    responded false msg w o (m, w', eq, _, (out, c, all)) =
        rw eq (w', refl, (out, c, λ x q. inl (all x q)))

    -- A publish with the id of another broker, or with none, comes to copies of it under that id
    -- or the own one, and to an answer.
    pub process_msg-Queued :
        (msg : Msg) (w : World D Q)
        → IsValid w.ids
        → msg.type ≡ publish
        → (msg.broker_id =ℤ e.broker_id) ≡ false
        → Goes msg (carried msg) w (process_msg e msg w)
    unfolding process_msg handle process_publish
    process_msg-Queued msg w valid t other = elim (Bool-cases (msg.broker_id =ℤ pos 0)) [
      | inl first ↦
          let own : Msg = record msg { broker_id = e.broker_id; type = publish } in
          rw (t, other, first)
            (responded true own w (publish_from e true own w)
              (publish_from-Published true own w valid refl))
      | inr again ↦
          let passed : Msg = record msg { type = publish } in
          rw (t, other, again)
            (responded false passed w (publish_from e false passed w)
              (publish_from-Published false passed w valid refl))
    ]
