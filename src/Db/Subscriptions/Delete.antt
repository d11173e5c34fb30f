-- ===== src/Db/Subscriptions/Delete.antt =====
-- Deleting a user where the file system refuses nothing.
use sistemas_distribuid.Base.{
  ◌≡◌, refl, ap, ◌∙◌, inl, inr, ℤ, pos, ◌=ℤ◌, Bool, true, false, not, ◌||◌, if◌then◌else◌, strtol,
  text_eq, text_eq_iff, List, [], ◌∷◌, ◌++◌, map, keep, some, Bool-cases, arith,
}
use mathlib.Core.List.{append_assoc, append-nil}
use sistemas_distribuid.Db.Disk.{
  Text, Folder, topic_path, Disk, Io, lookup, store, remove, lookup-store, lookup-remove,
}
use sistemas_distribuid.Db.Files.{tmp_name, lines_of}
use sistemas_distribuid.Db.Files.Working.{IsWorking}
use sistemas_distribuid.Db.Subscriptions.{copy_others, rename, unsubscribe, unsubscribe_all}
use sistemas_distribuid.Db.Subscriptions.Laws.{subs, others, is_some}

abbrev other_lines : ℤ → List Text → List Text
other_lines id = keep (λ line. not (strtol line =ℤ id))

map-other_lines :
    (id : ℤ) (lines : List Text) → map strtol (other_lines id lines) ≡ others id (map strtol lines)
map-other_lines id [] = refl
map-other_lines id (line ∷ lines) = ground (arith, map-other_lines id lines)

others-others : (id : ℤ) (ids : List ℤ) → others id (others id ids) ≡ others id ids
others-others id [] = refl
others-others id (i ∷ ids) = ground (arith, others-others id ids)

-- A name that is not that of the temporary file.
abbrev pub IsPlain : Text → Type 0
IsPlain t = text_eq tmp_name t ≡ false

abbrev pub has_text : Text → List Text → Bool
has_text t [] = false
has_text t (x ∷ xs) = text_eq x t || has_text t xs

-- Topics that have a file which is not the temporary one.
abbrev pub AllTopics : List Text → Disk → Type 0
AllTopics [] d = Unit {0}
AllTopics (t ∷ ts) d = (is_some (lookup t d.topics) ≡ true) × IsPlain t × AllTopics ts d

AllTopics-kept :
    (ts : List Text) (d d' : Disk)
    → ((t : Text)
        → IsPlain t
        → is_some (lookup t d.topics) ≡ true
        → is_some (lookup t d'.topics) ≡ true)
    → AllTopics ts d
    → AllTopics ts d'
AllTopics-kept [] d d' keeps all = tt
AllTopics-kept (t ∷ ts) d d' keeps all =
    (keeps t all.1 all.0, all.1, AllTopics-kept ts d d' keeps all.2)

module _ {io : Io} (ok : IsWorking io) (id : ℤ) where
  copy_others_lem :
      (lines out : List Text) → copy_others io id lines out ≡ (pos 0, out ++ other_lines id lines)
  unfolding copy_others
  copy_others_lem [] out = rw append-nil
  copy_others_lem (line ∷ lines) out = elim (Bool-cases (strtol line =ℤ id)) [
    | inl own ↦ rw own (copy_others_lem lines out)
    | inr other ↦
        rw (other, ok.puts (topic_path tmp_name))
          (copy_others_lem lines (out ++ line ∷ [])
            ∙ ap {B = ℤ × List Text} (λ xs. (pos 0, xs))
                (append_assoc out (line ∷ []) (other_lines id lines)))
  ]

  unsubscribe_lem :
      (topic : Text) (d : Disk)
      → is_some (lookup topic d.topics) ≡ true
      → IsPlain topic
      → let r = unsubscribe io id topic d in
        (r.0 ≡ pos 0)
        × (r.1.users ≡ d.users)
        × ((t : Text)
            → IsPlain t
            → lookup t r.1.topics ≡ (
                if text_eq topic t
                then some (other_lines id (lines_of (lookup topic d.topics)))
                else lookup t d.topics))
  unfolding unsubscribe rename
  unsubscribe_lem topic d there plain =
      rw
        (
          there,
          ok.writes (topic_path tmp_name),
          ok.reads (topic_path topic),
          copy_others_lem _ [],
          ok.renames (topic_path tmp_name),
          plain,
          lookup-store tmp_name topic [] d.topics,
          plain,
          lookup-store tmp_name tmp_name kept made,
        )
        (
          refl,
          refl,
          λ t h.
              rw
                (
                  lookup-store topic t kept (remove tmp_name (store tmp_name kept made)),
                  lookup-remove tmp_name t (store tmp_name kept made),
                  h,
                  lookup-store tmp_name t kept made,
                  h,
                  lookup-store tmp_name t [] d.topics,
                  h,
                )
                refl,
        )
    where
      kept : List Text
      kept = other_lines id (lines_of (lookup topic d.topics))

      made : Folder
      made = store tmp_name [] d.topics

  unsubscribe-exists :
      (topic : Text) (d : Disk)
      → is_some (lookup topic d.topics) ≡ true
      → IsPlain topic
      → (t : Text) → IsPlain t
      → is_some (lookup t d.topics) ≡ true
      → is_some (lookup t (unsubscribe io id topic d).1.topics) ≡ true
  unsubscribe-exists topic d there plain t h k =
      rw ((unsubscribe_lem topic d there plain).2 t h)
        (elim (Bool-cases (text_eq topic t)) [ inl this ↦ rw this | inr other ↦ rw other k ])

  unsubscribe-subs :
      (topic : Text) (d : Disk)
      → is_some (lookup topic d.topics) ≡ true
      → IsPlain topic
      → (t : Text) → IsPlain t
      → subs t (unsubscribe io id topic d).1
        ≡ (if text_eq topic t then others id (subs t d) else subs t d)
  unsubscribe-subs topic d there plain t h =
      rw ((unsubscribe_lem topic d there plain).2 t h) (elim (Bool-cases (text_eq topic t)) [
        | inl this ↦ rw (
          this,
          map-other_lines id (lines_of (lookup topic d.topics)),
          (text_eq_iff topic t).0 this,
        )
        | inr other ↦ rw other
      ])

  subs-twice :
      (t : Text) (topics : List Text) (here : Bool) (before after : List ℤ)
      → after ≡ (if here then others id before else before)
      → (if has_text t topics then others id after else after)
        ≡ (if here || has_text t topics then others id before else before)
  subs-twice t topics true before after e = rw e (elim (Bool-cases (has_text t topics)) [
    | inl more ↦ rw more (others-others id before)
    | inr done ↦ rw done
  ])
  subs-twice t topics false before after e = rw e

  -- Unsubscribing takes the user's lines out of each topic of the list, and leaves all other
  -- files that are read as they are.
  pub unsubscribe_all_lem :
      (topics : List Text) (d : Disk)
      → AllTopics topics d
      → let r = unsubscribe_all io id topics d in
        (r.0 ≡ pos 0)
        × (r.1.users ≡ d.users)
        × ((t : Text)
            → IsPlain t
            → subs t r.1 ≡ (if has_text t topics then others id (subs t d) else subs t d))
        × ((t : Text)
            → IsPlain t
            → is_some (lookup t d.topics) ≡ true
            → is_some (lookup t r.1.topics) ≡ true)
  unfolding unsubscribe_all
  unsubscribe_all_lem [] d all = (refl, refl, λ t h. refl, λ t h k. k)
  unsubscribe_all_lem (topic ∷ topics) d all =
      let d' : Disk = (unsubscribe io id topic d).1 in
      let one = unsubscribe_lem topic d all.0 all.1 in
      let all' = AllTopics-kept topics d d' (unsubscribe-exists topic d all.0 all.1) all.2 in
      let rest = unsubscribe_all_lem topics d' all' in
      rw (one.0, unsubscribe_all)
        (
          rest.0,
          rest.1 ∙ one.1,
          λ t h.
              rest.2 t h
              ∙ subs-twice t topics (text_eq topic t) (subs t d) (subs t d')
                  (unsubscribe-subs topic d all.0 all.1 t h),
          λ t h k. rest.3 t h (unsubscribe-exists topic d all.0 all.1 t h k),
        )
