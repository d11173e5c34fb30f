-- ===== src/Db/Files/Locked.antt =====
-- The semaphore of the database around the operations of db.c.
use sistemas_distribuid.Base.{
  ◌≡◌, refl, ℤ, pos, minus_one, is_neg, Bool, true, false, not, if◌then◌else◌, ap, print, Outcome,
  ret,
}
use mathlib.Core.Path.{fun_ext}
use sistemas_distribuid.Ipc.Kernel.{IsUp, p-up, v-up}
use sistemas_distribuid.Ipc.Vector.{Vector}
use sistemas_distribuid.Db.Disk.{Text, Disk, Io, remove}
use sistemas_distribuid.Db.Files.{
  release, take_sem, read_file, lines_of, file_exists, create_users_dir_if_not_exists, get_next_id,
  create_file, get_user_path, get_topic_path, create_topics_dir_if_not_exists,
  create_file_if_not_exists, append_to_file, add_user, db_add_user,
}
use sistemas_distribuid.Db.Subscriptions.{
  add_ids, subscribe, db_subscribe, get_subscribed, db_get_subscribed, unsubscribe_all, delete,
  db_delete,
}

-- An operation between `p` and one `v` on the semaphore.
abbrev pub locked : {A : Type 0} → Io → (Disk → ℤ × A × Disk) → A → Disk → Outcome (ℤ × A × Disk)
locked io body a d = take_sem io a d (λ d₀. let (r, a', d') = body d₀ in release io r a' d')

abbrev pub no_result : ℤ × Disk → ℤ × Unit {0} × Disk
no_result (r, d) = (r, tt, d)

-- Where the semaphore is free and its calls succeed, the operation runs once, with the semaphore
-- taken, and the semaphore is free again behind it, whether the operation succeeds or not.
pub locked_lem :
    {A : Type 0} (io : Io) (body : Disk → ℤ × A × Disk) (a : A) (d : Disk)
    → IsUp io.calls
    → d.sem ≡ 1
    → (body (record d { sem = 0 })).2.sem ≡ 0
    → let r = body (record d { sem = 0 }) in
      locked io body a d ≡ ret (r.0, r.1, record r.2 { sem = 1 })
unfolding release
locked_lem {A} io body a d up free kept = rw (up.sem_found, free, p-up 0 up, kept, v-up 0 up) refl

-- What each branch is the image of, the choice is the image of.
merge :
    {A B : Type 0} (f : A → B) (b : Bool) (x y : A) {x' y' : B}
    → x' ≡ f x
    → y' ≡ f y
    → (if b then x' else y') ≡ f (if b then x else y)
merge f true x y h k = h
merge f false x y h k = k

-- What follows `p` decides what the whole comes to.
take_sem-cong :
    {A : Type 0} (io : Io) (a : A) (d : Disk) {f g : Disk → Outcome (ℤ × A × Disk)}
    → ((d₀ : Disk) → f d₀ ≡ g d₀)
    → take_sem io a d f ≡ take_sem io a d g
take_sem-cong io a d h = ap (take_sem io a d) (fun_ext h)

module _ (io : Io) where
  abbrev freed : ℤ × Disk → Outcome (ℤ × Unit {0} × Disk)
  freed (r, d) = release io r tt d

  -- Every path of `db_add_user` behind `p` has its `v`.
  pub db_add_user-locked :
      (d : Disk) → db_add_user io d ≡ locked io (λ e. no_result (add_user io e)) tt d
  unfolding db_add_user add_user
  db_add_user-locked d = take_sem-cong io tt d (λ e.
      let dir : ℤ × Disk = create_users_dir_if_not_exists io e in
      let id : ℤ = get_next_id io dir.1 in
      let file : ℤ × Disk = create_file io (get_user_path id) dir.1 in
      merge freed (is_neg dir.0) (minus_one, dir.1) _ refl
        (merge freed (is_neg id) (minus_one, dir.1) _ refl
          (merge freed (is_neg file.0) (minus_one, file.1) (id, file.1) refl refl)))

  pub db_subscribe-locked :
      (id : ℤ) (topic : Text) (d : Disk)
      → db_subscribe io id topic d ≡ locked io (λ e. no_result (subscribe io id topic e)) tt d
  unfolding db_subscribe subscribe
  db_subscribe-locked id topic d = take_sem-cong io tt d (λ e.
      let dir : ℤ × Disk = create_topics_dir_if_not_exists io e in
      let file : ℤ × Disk = create_file_if_not_exists io (get_topic_path topic) dir.1 in
      let user : ℤ × Disk = append_to_file io (get_user_path id) topic file.1 in
      let subscriber : ℤ × Disk = append_to_file io (get_topic_path topic) (print id) user.1 in
      merge freed (is_neg dir.0) (minus_one, dir.1) _ refl
        (merge freed (not (file_exists (get_user_path id) dir.1)) (minus_one, dir.1) _ refl
          (merge freed (is_neg file.0) (minus_one, file.1) _ refl
            (merge freed (is_neg user.0) (minus_one, user.1) _ refl
              (merge freed (is_neg subscriber.0) (minus_one, subscriber.1) (pos 0, subscriber.1)
                refl refl)))))

  pub db_delete-locked :
      (id : ℤ) (d : Disk) → db_delete io id d ≡ locked io (λ e. no_result (delete io id e)) tt d
  unfolding db_delete delete
  db_delete-locked id d = take_sem-cong io tt d (λ e.
      let path = get_user_path id in
      let rest : ℤ × Disk = unsubscribe_all io id (lines_of (read_file path e)) e in
      let gone : Disk = record rest.1 { users = remove (print id) rest.1.users } in
      merge freed (not (file_exists path e)) (minus_one, e) _ refl
        (merge freed (not (io.reads path)) (minus_one, e) _ refl
          (merge freed (is_neg rest.0) (minus_one, rest.1) _ refl
            (merge freed (io.unlinks path) (pos 0, gone) (minus_one, rest.1) refl refl))))

  pub db_get_subscribed-locked :
      {V : Type 0} (o : Vector V) (topic : Text) (v : V) (d : Disk)
      → db_get_subscribed o io topic v d ≡ locked io (λ e. get_subscribed o io topic v e) v d
  unfolding db_get_subscribed get_subscribed
  db_get_subscribed-locked {V} o topic w d = take_sem-cong io w d (λ e.
      let path = get_topic_path topic in
      let f : ℤ × V × Disk → Outcome (ℤ × V × Disk) = λ x. release io x.0 x.1 x.2 in
      merge f (not (file_exists path e)) (pos 0, w, e) _ refl
        (merge f (io.reads path) (pos 0, add_ids o (lines_of (read_file path e)) w, e)
          (minus_one, w, e) refl refl))
