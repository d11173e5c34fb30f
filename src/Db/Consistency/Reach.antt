-- ===== src/Db/Consistency/Reach.antt =====
-- The histories of the files that broker/db-server/db.c works on.
use sistemas_distribuid.Base.{
  ◌≡◌, refl, sym, ◌∙◌, inl, inr, ℤ, Bool-cases, print, IsInt, subst, Outcome, ret,
}
use sistemas_distribuid.Db.Disk.{Text, Disk, Io, lookup}
use sistemas_distribuid.Db.Files.{db_add_user, add_user, IsFileName}
use sistemas_distribuid.Db.Files.Locked.{
  locked_lem, locked, no_result, db_add_user-locked, db_subscribe-locked, db_delete-locked,
}
use sistemas_distribuid.Db.Files.Working.{IsWorking, topics_dir_made}
use sistemas_distribuid.Db.Subscriptions.{subscribe, db_subscribe, delete, db_delete}
use sistemas_distribuid.Db.Subscriptions.Laws.{is_some}
use sistemas_distribuid.Db.Subscriptions.Delete.{IsPlain}
use sistemas_distribuid.Db.Released.{add_user-sem, subscribe-sem, delete-sem}
use sistemas_distribuid.Db.Consistency.{IsConsistent}
use sistemas_distribuid.Db.Consistency.Kept.{
  delete-IsConsistent, subscribe-IsConsistent, add_user-IsConsistent,
}

-- One call of the interface that returns, whatever it returns.
pub data Step (io : Io) : Disk → Disk → Type 0 where
  add_user_step : {d d' : Disk} (r : ℤ) → db_add_user io d ≡ ret (r, tt, d') → Step io d d'
  subscribe_step :
      {d d' : Disk} (r id : ℤ) (topic : Text)
      → IsInt id
      → IsFileName topic
      → IsPlain topic
      → db_subscribe io id topic d ≡ ret (r, tt, d')
      → Step io d d'
  delete_step :
      {d d' : Disk} (r id : ℤ) → IsInt id → db_delete io id d ≡ ret (r, tt, d') → Step io d d'

pub data Reach (io : Io) (d : Disk) : Disk → Type 0 where
  here : Reach io d d
  next : {e e' : Disk} → Reach io d e → Step io e e' → Reach io d e'

-- Consistent files, and a semaphore that nobody holds.
pub record IsReady (d : Disk) : Type 0 where
  pub files : IsConsistent d
  pub free : d.sem ≡ 1

-- What has the files of a consistent disk is consistent.
same_files :
    {d e : Disk} → e.users ≡ d.users → e.topics ≡ d.topics → IsConsistent d → IsConsistent e
same_files us ts s = record {
  listed = λ t i plain member. rw us (s.listed t i plain (rw ts at member));
  exist = λ n t member. rw ts (s.exist n t (rw us at member));
}

held-IsConsistent : {d : Disk} → IsConsistent d → IsConsistent (record d { sem = 0 })
held-IsConsistent s = same_files refl refl s

ret-disk :
    {r r' : ℤ} {d d' : Disk}
    → ◌≡◌ {A = Outcome (ℤ × Unit {0} × Disk)} (ret (r, tt, d)) (ret (r', tt, d'))
    → d ≡ d'
ret-disk h = cc

module _ {io : Io} (ok : IsWorking io) where
  -- A user without a file is refused.
  any_subscribe :
      (id : ℤ) (topic : Text) (d : Disk)
      → IsConsistent d
      → IsInt id
      → IsPlain topic
      → IsConsistent (subscribe io id topic d).1
  unfolding subscribe
  any_subscribe id topic d s int plain = elim (Bool-cases (is_some (lookup (print id) d.users))) [
    | inl there ↦ subscribe-IsConsistent id topic d ok s int plain there
    | inr missing ↦ rw (topics_dir_made ok d, ok.returned, missing) (same_files refl refl s)
  ]

  any_delete : (id : ℤ) (d : Disk) → IsConsistent d → IsInt id → IsConsistent (delete io id d).1
  unfolding delete
  any_delete id d s int = elim (Bool-cases (is_some (lookup (print id) d.users))) [
    | inl there ↦ delete-IsConsistent id d ok s int there
    | inr missing ↦ rw missing s
  ]

  -- An operation that keeps the files consistent does so between `p` and `v`.
  locked-IsReady :
      (body : Disk → ℤ × Disk) {d d' : Disk} {r : ℤ}
      → IsReady d
      → (body (record d { sem = 0 })).1.sem ≡ 0
      → IsConsistent (body (record d { sem = 0 })).1
      → locked io (λ e. no_result (body e)) tt d ≡ ret (r, tt, d')
      → IsReady d'
  locked-IsReady body {d} s kept sound h =
      subst IsReady
        (ret-disk (sym (locked_lem io (λ e. no_result (body e)) tt d ok.up s.free kept) ∙ h))
        (record { files = same_files refl refl sound; free = refl })

  Step-IsReady : {d d' : Disk} → Step io d d' → IsReady d → IsReady d'
  Step-IsReady (add_user_step r h) s =
      locked-IsReady (add_user io) s (add_user-sem io _)
        (add_user-IsConsistent _ ok (held-IsConsistent s.files)) (sym (db_add_user-locked io _) ∙ h)
  Step-IsReady (subscribe_step r id topic int name plain h) s =
      locked-IsReady (subscribe io id topic) s (subscribe-sem io id topic _)
        (any_subscribe id topic _ (held-IsConsistent s.files) int plain)
        (sym (db_subscribe-locked io id topic _) ∙ h)
  Step-IsReady (delete_step r id int h) s =
      locked-IsReady (delete io id) s (delete-sem io id _)
        (any_delete id _ (held-IsConsistent s.files) int) (sym (db_delete-locked io id _) ∙ h)

-- Where the file system refuses nothing, from consistent files with a free semaphore every history
-- of calls that return, to db_add_user, to db_subscribe with an id in the range of int and a topic
-- that is the name of a file (not empty, neither . nor .., without a slash and without a newline)
-- other than the temporary file, and to db_delete with an id in the range of int, whether the user
-- exists or not, leads to consistent files with a free semaphore.
pub Reach-IsReady : {io : Io} {d e : Disk} → IsWorking io → IsReady d → Reach io d e → IsReady e
Reach-IsReady ok s here = s
Reach-IsReady ok s (next r st) = Step-IsReady ok st (Reach-IsReady ok s r)
