-- ===== src/Server/Worker/Deliver.antt =====
-- Which messages `send_to_subs` puts in the response queue.
use mathlib.Core.List.{append_assoc, append-nil}
use sistemas_distribuid.Base.{
  ℕ, suc, ◌<◌, ◌≡◌, refl, ap, sym, ◌∙◌, ◌⊎◌, inl, inr, ℤ, pos, minus_one, is_neg, ◌=ℤ◌, Bool, true,
  false, not, if◌then◌else◌, List, [], ◌∷◌, ◌++◌, length, take, Option, none, some, Outcome, ret,
  arith,
}
use sistemas_distribuid.Ipc.Message.{Msg}
use sistemas_distribuid.Ipc.MsgQueue.{IsMsgQueue, sendmsg}
use sistemas_distribuid.Server.GlobalId.{GlobalId, GlobalIds, no_mtype_found_code}
use sistemas_distribuid.Server.GlobalId.Table.{mtype_code}
use sistemas_distribuid.Server.GlobalId.Refine.{view}
use sistemas_distribuid.Server.Worker.{Env, World, respond, next_server_global_id}

-- The message type under which the table knows an id, or -2.
abbrev pub mtype_of : GlobalIds → ℤ → ℤ
mtype_of ids global_id = mtype_code (view ids global_id)

-- The broker has a connection for the id.
abbrev pub is_local : GlobalIds → ℤ → Bool
is_local ids global_id = not (mtype_of ids global_id =ℤ no_mtype_found_code)

-- A copy of the message for a subscriber, under a message type.
abbrev pub address : Msg → ℤ → ℤ → Msg
address msg global_id mtype = record msg { global_id = global_id; mtype = mtype }

-- For each subscriber in turn a copy to its handler, if the broker has one; the first of the
-- others stands for all of them in one copy to the next server.
unfoldable pub deliveries : GlobalIds → Msg → Bool → List ℤ → List Msg
deliveries ids msg already_sent [] = []
deliveries ids msg already_sent (s ∷ subs) =
    if is_local ids s
    then address msg s (mtype_of ids s) ∷ deliveries ids msg already_sent subs
    else if already_sent
    then deliveries ids msg already_sent subs
    else address msg s (mtype_of ids next_server_global_id) ∷ deliveries ids msg true subs

pub deliveries-address :
    (ids : GlobalIds) (msg : Msg) (a b : ℤ) (already_sent : Bool) (subs : List ℤ)
    → deliveries ids (address msg a b) already_sent subs ≡ deliveries ids msg already_sent subs
unfolding deliveries
deliveries-address ids msg a b already_sent [] = refl
deliveries-address ids msg a b already_sent (s ∷ subs) = ground (
  arith,
  deliveries-address ids msg a b already_sent subs,
  deliveries-address ids msg a b true subs,
)

pub mtype_code-cases :
    (o : Option GlobalId)
    → ((mtype_code o =ℤ no_mtype_found_code) ≡ true)
      ⊎ (((mtype_code o =ℤ no_mtype_found_code) ≡ false) × (is_neg (mtype_code o) ≡ false))
mtype_code-cases none = inl refl
mtype_code-cases (some id) = ground arith

module _ {D Q V : Type 0} (e : Env D Q V) where
  -- What has become of the list of messages that were to be sent: some of them, in order, are
  -- in the queue, and the result says if these are all.
  pub record Sent (w w' : World D Q) (r : ℤ) (out : List Msg) : Type 0 where
    pub count : ℕ
    pub ids_kept : w'.ids ≡ w.ids
    pub conn_kept : w'.conn ≡ w.conn
    pub appended : e.queue.contents w'.resp ≡ e.queue.contents w.resp ++ take count out
    pub verdict : ((r ≡ pos 0) × (count ≡ length out)) ⊎ ((r ≡ minus_one) × (count < length out))

  -- The response queue has taken the message, or has not changed.
  abbrev pub Responded : Msg → World D Q → Type 0
  Responded m w =
      ((is_neg (respond e m w).0 ≡ false)
        × (e.queue.contents (respond e m w).1.resp ≡ e.queue.contents w.resp ++ m ∷ []))
      ⊎ ((is_neg (respond e m w).0 ≡ true)
          × (e.queue.contents (respond e m w).1.resp ≡ e.queue.contents w.resp))

  pub respond-cases : IsMsgQueue e.queue → (m : Msg) (w : World D Q) → Responded m w
  unfolding sendmsg
  respond-cases sound m w = ground (arith, sound.sent m w.resp)

  pub Sent-none : (w : World D Q) → Sent w w (pos 0) []
  Sent-none w = record {
    count = 0;
    ids_kept = refl;
    conn_kept = refl;
    appended = sym (append-nil (e.queue.contents w.resp));
    verdict = inl (refl, refl);
  }

  pub Sent-refused :
      (w w' : World D Q) (m : Msg) (out : List Msg)
      → w'.ids ≡ w.ids
      → w'.conn ≡ w.conn
      → e.queue.contents w'.resp ≡ e.queue.contents w.resp
      → Sent w w' minus_one (m ∷ out)
  Sent-refused w w' m out a b c = record {
    count = 0;
    ids_kept = a;
    conn_kept = b;
    appended = c ∙ sym (append-nil (e.queue.contents w.resp));
    verdict = inr (refl, omega arith);
  }

  pub Sent-cons :
      (w w₁ w' : World D Q) (r : ℤ) (m : Msg) (out : List Msg)
      → w₁.ids ≡ w.ids
      → w₁.conn ≡ w.conn
      → e.queue.contents w₁.resp ≡ e.queue.contents w.resp ++ m ∷ []
      → Sent w₁ w' r out
      → Sent w w' r (m ∷ out)
  Sent-cons w w₁ w' r m out a b c sent = record {
    count = suc sent.count;
    ids_kept = sent.ids_kept ∙ a;
    conn_kept = sent.conn_kept ∙ b;
    appended =
        sent.appended
        ∙ ap (λ xs. xs ++ take sent.count out) c
        ∙ append_assoc (e.queue.contents w.resp) (m ∷ []) (take sent.count out);
    verdict = ground (arith, sent.verdict);
  }

  -- The result, the world after, and what has been sent of the deliveries that are left.
  abbrev pub Sends : Outcome (ℤ × World D Q) → World D Q → List Msg → Type 0
  Sends o w out = (r : ℤ) × (w' : World D Q) × (o ≡ ret (r, w')) × Sent w w' r out
