-- ===== src/Db/Subscriptions.antt =====
-- broker/db-server/db.c: subscribing, the subscribers of a topic, and deleting a user.
pub mod Laws
pub mod Delete
use sistemas_distribuid.Base.{
  ℕ, zero, suc, ◌≡◌, ℤ, pos, minus_one, is_neg, ◌=ℤ◌, Bool, true, false, not, ◌&&◌, if◌then◌else◌,
  print, strtol, text_eq, List, [], ◌∷◌, ◌++◌, Option, none, some, Outcome, ret, ◌>>=◌,
}
use sistemas_distribuid.Ipc.Kernel.{getsem, p, v}
use sistemas_distribuid.Ipc.Vector.{Vector}
use sistemas_distribuid.Db.Disk.{
  Text, File, Folder, FilePath, user_path, topic_path, Disk, Io, lookup, store, remove,
}
use sistemas_distribuid.Db.Files.{
  tmp_name, read_file, write_file, lines_of, file_exists, create_file_if_not_exists,
  create_topics_dir_if_not_exists, get_topic_path, get_user_path, append_to_fd, append_to_file,
  take_sem, release,
}

-- What `db_subscribe` does to the files.
unfoldable pub subscribe : Io → ℤ → Text → Disk → ℤ × Disk
unfolding get_user_path get_topic_path file_exists
subscribe io id topic d =
    let (r, d₁) = create_topics_dir_if_not_exists io d in
    if is_neg r
    then (minus_one, d₁)
    else if not (file_exists (get_user_path id) d₁)
    then (minus_one, d₁)
    else (let (r', d₂) = create_file_if_not_exists io (get_topic_path topic) d₁ in
        if is_neg r'
        then (minus_one, d₂)
        else (let (a, d₃) = append_to_file io (get_user_path id) topic d₂ in
            if is_neg a
            then (minus_one, d₃)
            else (let (b, d₄) = append_to_file io (get_topic_path topic) (print id) d₃ in
                if is_neg b then (minus_one, d₄) else (pos 0, d₄))))

unfoldable pub db_subscribe : Io → ℤ → Text → Disk → Outcome (ℤ × Unit {0} × Disk)
unfolding get_user_path get_topic_path file_exists p release
db_subscribe io id topic d = take_sem io tt d (λ d₀.
    let (r, d₁) = create_topics_dir_if_not_exists io d₀ in
    if is_neg r
    then release io minus_one tt d₁
    else if not (file_exists (get_user_path id) d₁)
    then release io minus_one tt d₁
    else (let (r', d₂) = create_file_if_not_exists io (get_topic_path topic) d₁ in
        if is_neg r'
        then release io minus_one tt d₂
        else (let (a, d₃) = append_to_file io (get_user_path id) topic d₂ in
            if is_neg a
            then release io minus_one tt d₃
            else (let (b, d₄) = append_to_file io (get_topic_path topic) (print id) d₃ in
                if is_neg b then release io minus_one tt d₄ else release io (pos 0) tt d₄))))

-- `while ((read = getline(&line, &len, file)) != -1)` of `db_get_subscribed`
unfoldable pub add_ids : {V : Type 0} → Vector V → List Text → V → V
add_ids o [] subscribed = subscribed
add_ids o (line ∷ lines) subscribed = add_ids o lines (o.vector_add subscribed (strtol line))

-- What `db_get_subscribed` does with the files.
unfoldable pub get_subscribed : {V : Type 0} → Vector V → Io → Text → V → Disk → ℤ × V × Disk
unfolding get_topic_path file_exists
get_subscribed o io topic subscribed d =
    if not (file_exists (get_topic_path topic) d)
    then (pos 0, subscribed, d)
    else if io.reads (get_topic_path topic)
    then (pos 0, add_ids o (lines_of (read_file (get_topic_path topic) d)) subscribed, d)
    else (minus_one, subscribed, d)

unfoldable pub db_get_subscribed :
    {V : Type 0} → Vector V → Io → Text → V → Disk → Outcome (ℤ × V × Disk)
unfolding get_topic_path file_exists p release
db_get_subscribed o io topic subscribed d = take_sem io subscribed d (λ d₀.
    if not (file_exists (get_topic_path topic) d₀)
    then release io (pos 0) subscribed d₀
    else if io.reads (get_topic_path topic)
    then release io (pos 0) (add_ids o (lines_of (read_file (get_topic_path topic) d₀)) subscribed)
        d₀
    else release io minus_one subscribed d₀)

-- The loop of `unsubscribe`: the lines of the other users go to the temporary file, `out`.
unfoldable pub copy_others : Io → ℤ → List Text → List Text → ℤ × List Text
unfolding append_to_fd
copy_others io id [] out = (pos 0, out)
copy_others io id (line ∷ lines) out =
    let rest = copy_others io id lines out in
    if strtol line =ℤ id
    then rest
    else (let (r, out') = append_to_fd io (topic_path tmp_name) line out in
        let rest' = copy_others io id lines out' in if is_neg r then (minus_one, out') else rest')

-- `rename` within the folder of the topics; a file that is renamed to itself stays.
unfoldable pub rename : Io → Text → Text → Disk → ℤ × Disk
rename io from to d =
    if io.renames (topic_path from)
    then (
      pos 0,
      if text_eq from to then d else record d {
        topics = store to (lines_of (lookup from d.topics)) (remove from d.topics);
      },
    )
    else (minus_one, d)

-- The temporary file is made, or emptied, before anything is read.
unfoldable pub unsubscribe : Io → ℤ → Text → Disk → ℤ × Disk
unfolding get_topic_path file_exists
unsubscribe io id topic d =
    if not (file_exists (get_topic_path topic) d)
    then (minus_one, d)
    else (let can_write = io.writes (topic_path tmp_name) in
        let d₁ = if can_write then write_file (topic_path tmp_name) [] d else d in
        if not (io.reads (get_topic_path topic) && can_write)
        then (minus_one, d₁)
        else (let (r, out) =
              copy_others io id (lines_of (read_file (get_topic_path topic) d₁)) [] in
            let d₂ = write_file (topic_path tmp_name) out d₁ in
            if is_neg r then (minus_one, d₂) else rename io tmp_name topic d₂))

-- `while ((chars_read = getline(&topic, &len, file)) != -1)` of `db_delete`
unfoldable pub unsubscribe_all : Io → ℤ → List Text → Disk → ℤ × Disk
unsubscribe_all io id [] d = (pos 0, d)
unsubscribe_all io id (topic ∷ topics) d =
    let (r, d') = unsubscribe io id topic d in
    elim (is_neg r) [ true ↦ (minus_one, d') | false ↦ unsubscribe_all io id topics d' ]

-- What `db_delete` does to the files.
unfoldable pub delete : Io → ℤ → Disk → ℤ × Disk
unfolding get_user_path file_exists
delete io id d =
    if not (file_exists (get_user_path id) d)
    then (minus_one, d)
    else if not (io.reads (get_user_path id))
    then (minus_one, d)
    else (let (r, d') = unsubscribe_all io id (lines_of (read_file (get_user_path id) d)) d in
        if is_neg r
        then (minus_one, d')
        else if io.unlinks (get_user_path id)
        then (pos 0, record d' { users = remove (print id) d'.users })
        else (minus_one, d'))

unfoldable pub db_delete : Io → ℤ → Disk → Outcome (ℤ × Unit {0} × Disk)
unfolding get_user_path file_exists p release
db_delete io id d = take_sem io tt d (λ d₀.
    if not (file_exists (get_user_path id) d₀)
    then release io minus_one tt d₀
    else if not (io.reads (get_user_path id))
    then release io minus_one tt d₀
    else (let (r, d₁) = unsubscribe_all io id (lines_of (read_file (get_user_path id) d₀)) d₀ in
        if is_neg r
        then release io minus_one tt d₁
        else if io.unlinks (get_user_path id)
        then release io (pos 0) tt (record d₁ { users = remove (print id) d₁.users })
        else release io minus_one tt d₁))
