-- ===== src/Db/Consistency.antt =====
-- broker/db-server/db.c: how the files of users and topics refer to one another.
pub mod Kept
pub mod Reach
use sistemas_distribuid.Base.{
  ℕ, zero, suc, ◌≡◌, ◌≢◌, refl, ap, sym, ◌∙◌, ◌⊎◌, inl, inr, ℤ, pos, negsuc, minus_one, is_neg,
  ◌=ℤ◌, =ℤ_iff, Bool, true, false, not, ◌&&◌, ◌||◌, if◌then◌else◌, print, strtol, strtol-print,
  IsInt, text_eq, text_eq_iff, text_eq_refl, List, [], ◌∷◌, ◌++◌, map, keep, Option, none, some,
  Bool-cases, Option-cases, arith,
}
use sistemas_distribuid.Db.Disk.{Text, user_path, Disk, Io, lookup, remove, lookup-remove}
use sistemas_distribuid.Db.Files.{tmp_name, lines_of, get_user_path, add_user}
use sistemas_distribuid.Db.Files.Working.{IsWorking, add_user_lem, true≢false}
use sistemas_distribuid.Db.Subscriptions.{subscribe, unsubscribe_all, delete}
use sistemas_distribuid.Db.Subscriptions.Laws.{subs, topics_of, others, is_some, subscribe_lem}
use sistemas_distribuid.Db.Subscriptions.Delete.{IsPlain, has_text, AllTopics, unsubscribe_all_lem}

abbrev pub has_id : ℤ → List ℤ → Bool
has_id i [] = false
has_id i (x ∷ xs) = x =ℤ i || has_id i xs

-- Every subscriber of a topic is an `int` and lists the topic in its file; every topic in a
-- user's file has a file, which is not the temporary one.
pub record IsConsistent (d : Disk) : Type 0 where
  pub listed :
      (t : Text) (i : ℤ)
      → IsPlain t
      → has_id i (subs t d) ≡ true
      → has_text t (topics_of i d) ≡ true
  pub exist :
      (n t : Text)
      → has_text t (lines_of (lookup n d.users)) ≡ true
      → (is_some (lookup t d.topics) ≡ true) × IsPlain t

others-without : (id : ℤ) (ids : List ℤ) → has_id id ids ≡ false → others id ids ≡ ids
others-without id [] h = refl
others-without id (i ∷ ids) h = ground (arith, others-without id ids)

pub has_id-others : (id : ℤ) (ids : List ℤ) → has_id id (others id ids) ≡ false
has_id-others id [] = refl
has_id-others id (i ∷ ids) = ground (arith, has_id-others id ids)

pub has_id-others_sub :
    (id i : ℤ) (ids : List ℤ) → has_id i (others id ids) ≡ true → has_id i ids ≡ true
has_id-others_sub id i [] h = h
has_id-others_sub id i (x ∷ ids) h = ground (arith, has_id-others_sub id i ids)

all_topics :
    (ts : List Text) (d : Disk)
    → ((t : Text) → has_text t ts ≡ true → (is_some (lookup t d.topics) ≡ true) × IsPlain t)
    → AllTopics ts d
all_topics [] d h = tt
all_topics (t ∷ ts) d h =
    let first = h t (rw (text_eq_refl t)) in
    (first.0, first.1, all_topics ts d (λ s k. h s (ground arith)))

-- A user that does not list the topic is none of its subscribers.
others-listed :
    (id : ℤ) (t : Text) (d : Disk)
    → IsConsistent d
    → IsPlain t
    → (if has_text t (topics_of id d) then others id (subs t d) else subs t d)
      ≡ others id (subs t d)
others-listed id t d sound h = elim (Bool-cases (has_text t (topics_of id d))) [
  | inl yes_listed ↦ rw yes_listed
  | inr unlisted ↦ rw unlisted (elim (Bool-cases (has_id id (subs t d))) [
    | inl member ↦ absurd (true≢false (sym (sound.listed t id h member) ∙ unlisted))
    | inr absent ↦ sym (others-without id (subs t d) absent)
  ])
]

-- What `delete-exact` says, for all names, with the topics that stay.
pub delete_lem :
    {io : Io} (id : ℤ) (d : Disk)
    → IsWorking io
    → IsConsistent d
    → is_some (lookup (print id) d.users) ≡ true
    → let r = delete io id d in
      (r.0 ≡ pos 0)
      × ((n : Text)
          → lookup n r.1.users ≡ (if text_eq (print id) n then none else lookup n d.users))
      × ((t : Text) → IsPlain t → subs t r.1 ≡ others id (subs t d))
      × ((t : Text)
          → IsPlain t
          → is_some (lookup t d.topics) ≡ true
          → is_some (lookup t r.1.topics) ≡ true)
unfolding delete
delete_lem {io} id d ok sound there =
    let all = all_topics (topics_of id d) d (λ t h. sound.exist (print id) t h) in
    let done = unsubscribe_all_lem ok id (topics_of id d) d all in
    rw (there, ok.reads (user_path (print id)), done.0, ok.unlinks (user_path (print id)))
      (
        refl,
        λ n.
            lookup-remove (print id) n _
            ∙ ap (λ us. if text_eq (print id) n then none else lookup n us) done.1,
        λ t h. done.2 t h ∙ others-listed id t d sound h,
        done.3,
      )

-- In consistent files, where the file system refuses nothing, deleting a user that exists
-- succeeds: the user's file goes, no other user's file changes, and every topic but the temporary
-- file keeps exactly its other subscribers, in their order.
pub delete-exact :
    {io : Io} (id : ℤ) (d : Disk) (n t : Text)
    → IsWorking io
    → IsConsistent d
    → is_some (lookup (print id) d.users) ≡ true
    → IsPlain t
    → let r = delete io id d in
      (r.0 ≡ pos 0)
      × (lookup n r.1.users ≡ (if text_eq (print id) n then none else lookup n d.users))
      × (subs t r.1 ≡ others id (subs t d))
delete-exact id d n t ok sound there plain =
    let (done, users, topics, _) = delete_lem id d ok sound there in (done, users n, topics t plain)
