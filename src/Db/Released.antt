-- ===== src/Db/Released.antt =====
-- The semaphore of the database in broker/db-server/db.c, where the file system refuses some calls.
use sistemas_distribuid.Base.{
  ℕ, ◌≡◌, refl, ◌∙◌, inl, inr, ℤ, is_neg, Bool, true, false, not, ◌&&◌, if◌then◌else◌, Bool-cases,
  arith, List, [], ◌∷◌, Outcome, ret, print,
}
use sistemas_distribuid.Ipc.Kernel.{IsUp}
use sistemas_distribuid.Db.Disk.{
  Text, Dir, base_dir, users_dir, topics_dir, FilePath, user_path, topic_path, Disk, Io,
}
use sistemas_distribuid.Db.Files.{
  tmp_name, lines_of, read_file, write_file, file_exists, create_file, create_file_if_not_exists,
  create_dir_if_not_exists, create_users_dir_if_not_exists, create_topics_dir_if_not_exists,
  get_user_path, get_topic_path, append_to_file, get_next_id, add_user, db_add_user,
}
use sistemas_distribuid.Db.Files.Locked.{
  locked_lem, no_result, db_add_user-locked, db_subscribe-locked, db_delete-locked,
}
use sistemas_distribuid.Db.Subscriptions.{
  subscribe, db_subscribe, copy_others, rename, unsubscribe, unsubscribe_all, delete, db_delete,
}

-- A test chooses between two results that leave the semaphore alike.
either :
    {s : ℕ} (b : Bool) (x y : ℤ × Disk) → x.1.sem ≡ s → y.1.sem ≡ s → (if b then x else y).1.sem ≡ s
either true x y h k = h
either false x y h k = k

module _ (io : Io) where
  write_file-sem :
      (path : FilePath) (lines : List Text) (d : Disk) → (write_file path lines d).sem ≡ d.sem
  write_file-sem (user_path n) lines d = refl
  write_file-sem (topic_path n) lines d = refl

  dir-sem : (dir : Dir) (d : Disk) → (create_dir_if_not_exists io dir d).1.sem ≡ d.sem
  unfolding create_dir_if_not_exists
  dir-sem base_dir d = ground arith
  dir-sem users_dir d = ground arith
  dir-sem topics_dir d = ground arith

  users_dir-sem : (d : Disk) → (create_users_dir_if_not_exists io d).1.sem ≡ d.sem
  unfolding create_users_dir_if_not_exists
  users_dir-sem d =
      ground
        (arith, dir-sem base_dir d, dir-sem users_dir (create_dir_if_not_exists io base_dir d).1)

  topics_dir-sem : (d : Disk) → (create_topics_dir_if_not_exists io d).1.sem ≡ d.sem
  unfolding create_topics_dir_if_not_exists
  topics_dir-sem d =
      ground
        (arith, dir-sem base_dir d, dir-sem topics_dir (create_dir_if_not_exists io base_dir d).1)

  create_file-sem : (path : FilePath) (d : Disk) → (create_file io path d).1.sem ≡ d.sem
  unfolding create_file
  create_file-sem path d = ground (arith, write_file-sem path (lines_of (read_file path d)) d)

  create_file_if-sem :
      (path : FilePath) (d : Disk) → (create_file_if_not_exists io path d).1.sem ≡ d.sem
  unfolding create_file_if_not_exists
  create_file_if-sem path d = elim (Bool-cases (not (file_exists path d))) [
    | inl missing ↦ rw missing (create_file-sem path d)
    | inr there ↦ rw there refl
  ]

  append-sem :
      (path : FilePath) (str : Text) (d : Disk) → (append_to_file io path str d).1.sem ≡ d.sem
  unfolding append_to_file
  append-sem path str d = elim (Bool-cases (io.writes path)) [
    | inl writable ↦ rw writable (write_file-sem path _ d)
    | inr refused ↦ rw refused refl
  ]

  pub add_user-sem : (d : Disk) → (add_user io d).1.sem ≡ d.sem
  unfolding add_user
  add_user-sem d =
      let dir : ℤ × Disk = create_users_dir_if_not_exists io d in
      let id : ℤ = get_next_id io dir.1 in
      let file : ℤ × Disk = create_file io (get_user_path id) dir.1 in
      let made = users_dir-sem d in
      let kept = create_file-sem (get_user_path id) dir.1 ∙ made in
      either (is_neg dir.0) _ _ made
        (either (is_neg id) _ _ made (either (is_neg file.0) _ _ kept kept))

  pub subscribe-sem : (id : ℤ) (topic : Text) (d : Disk) → (subscribe io id topic d).1.sem ≡ d.sem
  unfolding subscribe
  subscribe-sem id topic d =
      let dir : ℤ × Disk = create_topics_dir_if_not_exists io d in
      let file : ℤ × Disk = create_file_if_not_exists io (get_topic_path topic) dir.1 in
      let user : ℤ × Disk = append_to_file io (get_user_path id) topic file.1 in
      let subscriber : ℤ × Disk = append_to_file io (get_topic_path topic) (print id) user.1 in
      let a = topics_dir-sem d in
      let b = create_file_if-sem (get_topic_path topic) dir.1 ∙ a in
      let c = append-sem (get_user_path id) topic file.1 ∙ b in
      let e = append-sem (get_topic_path topic) (print id) user.1 ∙ c in
      either (is_neg dir.0) _ _ a (
        either (not (file_exists (get_user_path id) dir.1)) _ _ a (
          either (is_neg file.0) _ _ b
            (either (is_neg user.0) _ _ c (either (is_neg subscriber.0) _ _ e e))))

  rename-sem : (a b : Text) (d : Disk) → (rename io a b d).1.sem ≡ d.sem
  unfolding rename
  rename-sem a b d = ground arith

  unsubscribe-sem : (id : ℤ) (topic : Text) (d : Disk) → (unsubscribe io id topic d).1.sem ≡ d.sem
  unfolding unsubscribe
  unsubscribe-sem id topic d = elim (Bool-cases (io.writes (topic_path tmp_name))) [
    | inl writable ↦
        let d₁ : Disk = write_file (topic_path tmp_name) [] d in
        let copy = copy_others io id (lines_of (read_file (get_topic_path topic) d₁)) [] in
        let d₂ : Disk = write_file (topic_path tmp_name) copy.1 d₁ in
        rw writable (
          either (not (file_exists (get_topic_path topic) d)) _ _ refl (
            either (not (io.reads (get_topic_path topic) && true)) _ _ refl
              (either (is_neg copy.0) _ _ refl (rename-sem tmp_name topic d₂))))
    | inr refused ↦
        let copy = copy_others io id (lines_of (read_file (get_topic_path topic) d)) [] in
        let d₂ : Disk = write_file (topic_path tmp_name) copy.1 d in
        rw refused (
          either (not (file_exists (get_topic_path topic) d)) _ _ refl (
            either (not (io.reads (get_topic_path topic) && false)) _ _ refl
              (either (is_neg copy.0) _ _ refl (rename-sem tmp_name topic d₂))))
  ]

  unsubscribe_all-sem :
      (id : ℤ) (topics : List Text) (d : Disk) → (unsubscribe_all io id topics d).1.sem ≡ d.sem
  unfolding unsubscribe_all
  unsubscribe_all-sem id [] d = refl
  unsubscribe_all-sem id (t ∷ topics) d = elim (Bool-cases (is_neg (unsubscribe io id t d).0)) [
    | inl failed ↦ rw (unsubscribe_all, failed) (unsubscribe-sem id t d)
    | inr done ↦
        rw (unsubscribe_all, done)
          (unsubscribe_all-sem id topics (unsubscribe io id t d).1 ∙ unsubscribe-sem id t d)
  ]

  pub delete-sem : (id : ℤ) (d : Disk) → (delete io id d).1.sem ≡ d.sem
  unfolding delete
  delete-sem id d =
      let topics : List Text = lines_of (read_file (get_user_path id) d) in
      let rest : ℤ × Disk = unsubscribe_all io id topics d in
      let kept = unsubscribe_all-sem id topics d in
      either (not (file_exists (get_user_path id) d)) _ _ refl (
        either (not (io.reads (get_user_path id))) _ _ refl
          (either (is_neg rest.0) _ _ kept (either (io.unlinks (get_user_path id)) _ _ kept kept)))

-- A call that returns with the semaphore of the database free.
abbrev pub Releases : Outcome (ℤ × Unit {0} × Disk) → ℤ → Type 0
Releases o r = (d' : Disk) × (o ≡ ret (r, tt, d')) × (d'.sem ≡ 1)

-- Where the semaphore of the database is found and free, adding a user, subscribing and deleting
-- return on each of their paths, whatever the file system refuses: they leave the semaphore free,
-- and return what their work between p and v gives.
pub db-released :
    (io : Io) (d : Disk) (id : ℤ) (topic : Text)
    → IsUp io.calls
    → d.sem ≡ 1
    → let held : Disk = record d { sem = 0 } in
      Releases (db_add_user io d) (add_user io held).0
      × Releases (db_subscribe io id topic d) (subscribe io id topic held).0
      × Releases (db_delete io id d) (delete io id held).0
db-released io d id topic up free =
    let held : Disk = record d { sem = 0 } in
    (
      (
        _,
        db_add_user-locked io d
            ∙ locked_lem io (λ e. no_result (add_user io e)) tt d up free (add_user-sem io held),
        refl,
      ),
      (
        _,
        db_subscribe-locked io id topic d
            ∙ locked_lem io (λ e. no_result (subscribe io id topic e)) tt d up free
                (subscribe-sem io id topic held),
        refl,
      ),
      (
        _,
        db_delete-locked io id d
            ∙ locked_lem io (λ e. no_result (delete io id e)) tt d up free (delete-sem io id held),
        refl,
      ),
    )
