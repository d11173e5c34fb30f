-- ===== src/Db/Files/Working.antt =====
-- db.c where the file system refuses nothing: what each step does to the files.
use sistemas_distribuid.Base.{
  ℕ, ◌≤◌, ◌<◌, ◌≡◌, ◌≢◌, refl, sym, ◌∙◌, ◌⊎◌, inl, inr, ℤ, pos, negsuc, is_neg, ltb_ℤ, suc_int,
  true, false, if◌then◌else◌, print, strtol, strtol-print, strtol-IsInt, suc_int_lem, ◌^◌, IsInt,
  text_eq, text_eq_iff, List, [], ◌∷◌, ◌++◌, none, some, Bool-cases, Option-cases, arith,
}
use sistemas_distribuid.Ipc.Kernel.{IsUp}
use sistemas_distribuid.Db.Disk.{
  Text, Folder, Dir, base_dir, users_dir, topics_dir, FilePath, user_path, Disk, Io, lookup,
  lookup-store,
}
use sistemas_distribuid.Db.Files.{
  read_file, write_file, lines_of, create_users_dir_if_not_exists, create_topics_dir_if_not_exists,
  append_to_file, max_id_from, get_next_id, add_user,
}

pub record IsWorking (io : Io) : Type 0 where
  pub up : IsUp io.calls
  pub opens : (d : Dir) → io.opendir d ≡ true
  pub makes : (d : Dir) → io.mkdir d ≡ true
  pub reads : (f : FilePath) → io.reads f ≡ true
  pub writes : (f : FilePath) → io.writes f ≡ true
  pub puts : (f : FilePath) → io.puts f ≡ true
  pub renames : (f : FilePath) → io.renames f ≡ true
  pub unlinks : (f : FilePath) → io.unlinks f ≡ true
  pub returned : is_neg io.unreturned ≡ false

module _ {io : Io} (ok : IsWorking io) where
  users_dir_made :
      (d : Disk)
      → create_users_dir_if_not_exists io d
        ≡ (io.unreturned, record d { has_base = true; has_users = true })
  unfolding create_users_dir_if_not_exists
  users_dir_made d =
      ground (arith, ok.opens base_dir, ok.opens users_dir, ok.makes base_dir, ok.makes users_dir)

  pub topics_dir_made :
      (d : Disk)
      → create_topics_dir_if_not_exists io d
        ≡ (io.unreturned, record d { has_base = true; has_topics = true })
  unfolding create_topics_dir_if_not_exists
  topics_dir_made d =
      ground (arith, ok.opens base_dir, ok.opens topics_dir, ok.makes base_dir, ok.makes topics_dir)

  pub file_appended :
      (path : FilePath) (str : Text) (d : Disk)
      → append_to_file io path str d
        ≡ (pos 0, write_file path (lines_of (read_file path d) ++ str ∷ []) d)
  unfolding append_to_file
  file_appended path str d = rw (ok.writes path, ok.puts path)

larger :
    (m : ℕ) (x : ℤ)
    → m < 2 ^ 31
    → IsInt x
    → (k : ℕ) × ((if ltb_ℤ (pos m) x then x else pos m) ≡ pos k)
      × (m ≤ k)
      × (ltb_ℤ (pos k) x ≡ false)
      × (k < 2 ^ 31)
larger m (negsuc n) small int = (m, refl, omega arith, refl, small)
larger m (pos n) small int = elim (Bool-cases (ltb_ℤ (pos m) (pos n))) [
  | inl less ↦ (n, rw less, ground arith, ground arith, int)
  | inr more ↦ (m, rw more, omega arith, more, small)
]

ltb_ℤ-mono : (m k : ℕ) (x : ℤ) → m ≤ k → ltb_ℤ (pos m) x ≡ false → ltb_ℤ (pos k) x ≡ false
ltb_ℤ-mono m k (negsuc n) h e = refl
ltb_ℤ-mono m k (pos n) h e = ground arith

some≢none : {lines : List Text} → some lines ≢ none
some≢none h = cc

pub true≢false : true ≢ false
true≢false h = cc

-- The largest id is at least the one that the search begins with, and that of every file.
max_id_lem :
    (m : ℕ) (fs : Folder)
    → m < 2 ^ 31
    → (k : ℕ) × (max_id_from (pos m) fs ≡ pos k)
      × (m ≤ k)
      × ((n : Text) → lookup n fs ≢ none → ltb_ℤ (pos k) (strtol n) ≡ false)
      × (k < 2 ^ 31)
unfolding max_id_from lookup
max_id_lem m [] small = (m, refl, omega arith, λ n h. absurd (h refl), small)
max_id_lem m (f ∷ fs) small =
    let (m', e, le, top, small') = larger m (strtol f.name) small (strtol-IsInt f.name) in
    let (k, e', le', above, small'') = max_id_lem m' fs small' in
    (
      k,
      rw e e',
      omega arith,
      λ n h. elim (Bool-cases (text_eq f.name n)) [
        | inl same ↦ ltb_ℤ-mono m' k (strtol n) le' (rw (← (text_eq_iff f.name n).0 same) top)
        | inr other ↦ above n (λ missing. h (rw other missing))
      ],
      small'',
    )

-- The id after the largest one is no file's.
fresh_id :
    (fs : Folder)
    → is_neg (suc_int (max_id_from (pos 0) fs)) ≡ false
    → lookup (print (suc_int (max_id_from (pos 0) fs))) fs ≡ none
fresh_id fs good =
    let (k, e, _, above, small) = max_id_lem 0 fs (omega arith) in
    let id : ℤ = suc_int (pos k) in
    let (int, more) = suc_int_lem k small (rw e at good) in
    rw e (elim (Option-cases (lookup (print id) fs)) [
      | inl missing ↦ missing
      | inr (lines, found) ↦
          let bound : ltb_ℤ (pos k) (strtol (print id)) ≡ false =
            above (print id) (λ missing. some≢none (sym found ∙ missing)) in
          absurd (true≢false (sym more ∙ (rw (strtol-print id int) at bound)))
    ])

next_id_lem :
    {io : Io} (d : Disk)
    → IsWorking io
    → d.has_users ≡ true
    → get_next_id io d ≡ suc_int (max_id_from (pos 0) d.users)
unfolding get_next_id
next_id_lem d ok there = rw (there, ok.opens users_dir)

-- Where the file system refuses nothing, a new user gets an id that no user has, and an empty
-- file; the other users and all topics stay. There is no id only where the largest one has no
-- successor among the ints, and then nothing changes in users and topics.
pub add_user_lem :
    {io : Io} (d : Disk)
    → IsWorking io
    → let r = add_user io d in
      (((is_neg r.0 ≡ false)
          × (lookup (print r.0) d.users ≡ none)
          × ((n : Text)
              → lookup n r.1.users ≡ (if text_eq (print r.0) n then some [] else lookup n d.users)))
        ⊎ ((is_neg r.0 ≡ true) × (r.1.users ≡ d.users)))
      × (r.1.topics ≡ d.topics)
unfolding add_user
add_user_lem {io} d ok =
    let id : ℤ = suc_int (max_id_from (pos 0) d.users) in
    let e = next_id_lem (record d { has_base = true; has_users = true }) ok refl in
    rw (users_dir_made ok d, ok.returned, e)
      (elim (Bool-cases (is_neg id)) [
        | inl bad ↦ rw bad (inr (refl, refl), refl)
        | inr good ↦
            let missing = fresh_id d.users good in
            rw (good, ok.writes (user_path (print id)), missing)
              (inl (good, refl, λ n. lookup-store (print id) n [] d.users), refl)
      ])
