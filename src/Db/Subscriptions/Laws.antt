-- ===== src/Db/Subscriptions/Laws.antt =====
-- Subscribing and unsubscribing where the file system refuses nothing.
use mathlib.Core.List.{map-append}
use sistemas_distribuid.Base.{
  ◌≡◌, refl, ap, ◌∙◌, inl, inr, ℤ, pos, ◌=ℤ◌, Bool, true, false, not, if◌then◌else◌, print, strtol,
  strtol-print, IsInt, text_eq, text_eq_iff, text_eq_refl, List, [], ◌∷◌, ◌++◌, map, keep, Option,
  none, some, Bool-cases, Option-cases, arith,
}
use sistemas_distribuid.Db.Disk.{
  Text, Folder, user_path, topic_path, Disk, Io, lookup, store, lookup-store,
}
use sistemas_distribuid.Db.Files.{IsFileName, lines_of, file_exists, create_file_if_not_exists}
use sistemas_distribuid.Db.Files.Working.{IsWorking, topics_dir_made, file_appended}
use sistemas_distribuid.Db.Subscriptions.{subscribe}

-- The ids in the file of a topic, and the topics in the file of a user.
abbrev pub subs : Text → Disk → List ℤ
subs topic d = map strtol (lines_of (lookup topic d.topics))

abbrev pub topics_of : ℤ → Disk → List Text
topics_of id d = lines_of (lookup (print id) d.users)

abbrev pub others : ℤ → List ℤ → List ℤ
others id = keep (λ i. not (i =ℤ id))

abbrev pub is_some : Option (List Text) → Bool
is_some none = false
is_some (some lines) = true

-- An id that is added to the file of a topic is the last of its ids.
subs-appended :
    (topic t : Text) (id : ℤ) (fs : Folder) (d : Disk)
    → IsInt id
    → ((t : Text) → lines_of (lookup t fs) ≡ lines_of (lookup t d.topics))
    → map strtol
        (lines_of (lookup t (store topic (lines_of (lookup topic fs) ++ print id ∷ []) fs)))
      ≡ (if text_eq topic t then subs t d ++ id ∷ [] else subs t d)
subs-appended topic t id fs d int same =
    rw (lookup-store topic t (lines_of (lookup topic fs) ++ print id ∷ []) fs)
      (elim (Bool-cases (text_eq topic t)) [
        | inl this ↦
            rw (this, map-append, strtol-print id int, same topic, (text_eq_iff topic t).0 this)
        | inr other ↦ rw (other, same t)
      ])

module _ {io : Io} (ok : IsWorking io) where
  topic_made :
      (topic : Text) (d : Disk)
      → let r = create_file_if_not_exists io (topic_path topic) d in
        (r.0 ≡ pos 0)
        × (r.1.users ≡ d.users)
        × ((t : Text) → lines_of (lookup t r.1.topics) ≡ lines_of (lookup t d.topics))
        × ((t : Text) → is_some (lookup t d.topics) ≡ true → is_some (lookup t r.1.topics) ≡ true)
  unfolding create_file_if_not_exists
  topic_made topic d = elim (Option-cases (lookup topic d.topics)) [
    | inl missing ↦
        rw (ok.writes (topic_path topic), missing, file_exists)
          (
            refl,
            refl,
            λ t. ground (arith, lookup-store topic t [] d.topics, text_eq_iff topic t),
            λ t h. ground (arith, lookup-store topic t [] d.topics, text_eq_iff topic t),
          )
    | inr (lines, found) ↦ rw (found, file_exists) (refl, refl, λ t. refl, λ t h. h)
  ]

  -- What `subscribe-exact` says, for all names, with the topics that stay.
  pub subscribe_lem :
      (id : ℤ) (topic : Text) (d : Disk)
      → IsInt id
      → is_some (lookup (print id) d.users) ≡ true
      → let r = subscribe io id topic d in
        (r.0 ≡ pos 0)
        × ((n : Text)
            → lookup n r.1.users ≡ (
                if text_eq (print id) n
                then some (topics_of id d ++ topic ∷ [])
                else lookup n d.users))
        × ((t : Text) → subs t r.1 ≡ (if text_eq topic t then subs t d ++ id ∷ [] else subs t d))
        × ((t : Text) → is_some (lookup t d.topics) ≡ true → is_some (lookup t r.1.topics) ≡ true)
        × (is_some (lookup topic r.1.topics) ≡ true)
  unfolding subscribe
  subscribe_lem id topic d int there =
      let d₁ : Disk = record d { has_base = true; has_topics = true } in
      let made = topic_made topic d₁ in
      let d₂ : Disk = (create_file_if_not_exists io (topic_path topic) d₁).1 in
      let own : List Text = lines_of (lookup (print id) d₂.users) ++ topic ∷ [] in
      let d₃ : Disk = record d₂ { users = store (print id) own d₂.users } in
      rw
        (
          topics_dir_made ok d,
          ok.returned,
          there,
          made.0,
          file_appended ok (user_path (print id)) topic d₂,
          file_appended ok (topic_path topic) (print id) d₃,
        )
        (
          refl,
          λ n.
              lookup-store (print id) n own d₂.users
              ∙ ap
                  (λ us.
                    if text_eq (print id) n
                    then some (lines_of (lookup (print id) us) ++ topic ∷ [])
                    else lookup n us)
                  made.1,
          λ t. subs-appended topic t id d₂.topics d int made.2,
          λ t h. ground (
            arith,
            lookup-store topic t (lines_of (lookup topic d₂.topics) ++ print id ∷ []) d₂.topics,
            made.3 t h,
          ),
          ground (
            arith,
            lookup-store topic topic (lines_of (lookup topic d₂.topics) ++ print id ∷ []) d₂.topics,
            text_eq_refl topic,
          ),
        )

-- Where the file system refuses nothing, subscribing a user that exists to a topic that is the
-- name of a file (not empty, neither . nor .., without a slash and without a newline) adds the
-- topic to the user's and the id to the topic's file, each at the end, and changes nothing else
-- that is read of users and topics.
pub subscribe-exact :
    {io : Io} (id : ℤ) (topic : Text) (d : Disk) (n t : Text)
    → IsWorking io
    → IsFileName topic
    → IsInt id
    → is_some (lookup (print id) d.users) ≡ true
    → let r = subscribe io id topic d in
      (r.0 ≡ pos 0)
      × (lookup n r.1.users ≡ (
          if text_eq (print id) n then some (topics_of id d ++ topic ∷ []) else lookup n d.users))
      × (subs t r.1 ≡ (if text_eq topic t then subs t d ++ id ∷ [] else subs t d))
subscribe-exact id topic d n t ok name int there =
    let (done, users, topics, _, _) = subscribe_lem ok id topic d int there in
    (done, users n, topics t)
