-- ===== src/Db/Files.antt =====
-- broker/db-server/db.c: users and topics as files. `users/<id>` holds the topics of a user, a line
-- each, and `topics/<topic>` the ids of its subscribers. Topics are file names here, as `IsFileName`
-- says: `db.c` puts any text into a path.
pub mod Working
pub mod Locked
use sistemas_distribuid.Base.{
  ℕ, zero, suc, ◌≡◌, ℤ, pos, minus_one, is_neg, ltb_ℤ, ◌=ℤ◌, suc_int, Bool, true, false, not, ◌&&◌,
  ◌||◌, ◌==◌, if◌then◌else◌, print, strtol, text_eq, List, [], ◌∷◌, ◌++◌, Option, none, some,
  Outcome, ret, ◌>>=◌,
}
use sistemas_distribuid.Ipc.Kernel.{getsem, p, v}
use sistemas_distribuid.Ipc.Vector.{Vector}
use sistemas_distribuid.Db.Disk.{
  Text, File, Folder, Dir, base_dir, users_dir, topics_dir, FilePath, user_path, topic_path, Disk,
  Io, lookup, store, remove,
}

-- `TMP_FILE`, which lies among the topics
abbrev pub tmp_name : Text
tmp_name = b't' ∷ b'o' ∷ b'p' ∷ b'i' ∷ b'c' ∷ b'_' ∷ b't' ∷ b'm' ∷ b'p' ∷ []

abbrev pub read_file : FilePath → Disk → Option (List Text)
read_file (user_path n) d = lookup n d.users
read_file (topic_path n) d = lookup n d.topics

abbrev pub write_file : FilePath → List Text → Disk → Disk
write_file (user_path n) lines d = record d { users = store n lines d.users }
write_file (topic_path n) lines d = record d { topics = store n lines d.topics }

abbrev pub lines_of : Option (List Text) → List Text
lines_of none = []
lines_of (some lines) = lines

unfoldable pub file_exists : FilePath → Disk → Bool
file_exists path d = elim (read_file path d) [ none ↦ false | some lines ↦ true ]

-- To open for appending makes the file if it is not there.
unfoldable pub create_file : Io → FilePath → Disk → ℤ × Disk
create_file io path d =
    if io.writes path
    then (pos 0, write_file path (lines_of (read_file path d)) d)
    else (minus_one, d)

unfoldable pub create_file_if_not_exists : Io → FilePath → Disk → ℤ × Disk
unfolding file_exists create_file
create_file_if_not_exists io path d =
    if not (file_exists path d) then create_file io path d else (pos 0, d)

abbrev has_dir : Dir → Disk → Bool
has_dir base_dir d = d.has_base
has_dir users_dir d = d.has_users
has_dir topics_dir d = d.has_topics

abbrev make_dir : Dir → Disk → Disk
make_dir base_dir d = record d { has_base = true }
make_dir users_dir d = record d { has_users = true }
make_dir topics_dir d = record d { has_topics = true }

unfoldable pub create_dir_if_not_exists : Io → Dir → Disk → ℤ × Disk
create_dir_if_not_exists io dir d =
    if has_dir dir d
    then (if io.opendir dir then (pos 0, d) else (minus_one, d))
    else if io.mkdir dir
    then (pos 0, make_dir dir d)
    else (minus_one, d)

-- With both folders there the function ends with no `return`.
unfoldable pub create_users_dir_if_not_exists : Io → Disk → ℤ × Disk
unfolding create_dir_if_not_exists
create_users_dir_if_not_exists io d =
    let (r, d₁) = create_dir_if_not_exists io base_dir d in
    if is_neg r
    then (minus_one, d₁)
    else (let (r', d₂) = create_dir_if_not_exists io users_dir d₁ in
        if is_neg r' then (minus_one, d₂) else (io.unreturned, d₂))

unfoldable pub create_topics_dir_if_not_exists : Io → Disk → ℤ × Disk
unfolding create_dir_if_not_exists
create_topics_dir_if_not_exists io d =
    let (r, d₁) = create_dir_if_not_exists io base_dir d in
    if is_neg r
    then (minus_one, d₁)
    else (let (r', d₂) = create_dir_if_not_exists io topics_dir d₁ in
        if is_neg r' then (minus_one, d₂) else (io.unreturned, d₂))

abbrev pub has_char : ℕ → Text → Bool
has_char c [] = false
has_char c (x ∷ xs) = x == c || has_char c xs

-- A topic that names a file of the folder and fits into one line: with a `/` in it, or as `.` or
-- `..`, it would lead elsewhere, and a newline would end its line.
abbrev pub IsFileName : Text → Type 0
IsFileName t =
    (text_eq t [] ≡ false)
    × (text_eq t (b'.' ∷ []) ≡ false)
    × (text_eq t (b'.' ∷ b'.' ∷ []) ≡ false)
    × (has_char b'/' t ≡ false)
    × (has_char b'\n' t ≡ false)

-- The path of a topic that is a file name; of others this says nothing.
unfoldable pub get_topic_path : Text → FilePath
get_topic_path topic = topic_path topic

unfoldable pub get_user_path : ℤ → FilePath
get_user_path id = user_path (print id)

-- A text and a newline at the end of an open file.
unfoldable pub append_to_fd : Io → FilePath → Text → List Text → ℤ × List Text
append_to_fd io path str lines =
    if io.puts path then (pos 0, lines ++ str ∷ []) else (minus_one, lines)

unfoldable pub append_to_file : Io → FilePath → Text → Disk → ℤ × Disk
unfolding append_to_fd
append_to_file io path str d =
    if io.writes path
    then (let (r, lines) = append_to_fd io path str (lines_of (read_file path d)) in
        (if is_neg r then minus_one else pos 0, write_file path lines d))
    else (minus_one, d)

-- The largest id among the names of a folder, from `max_id`.
unfoldable pub max_id_from : ℤ → Folder → ℤ
max_id_from max_id [] = max_id
max_id_from max_id (ent ∷ ents) =
    max_id_from (if ltb_ℤ max_id (strtol ent.name) then strtol ent.name else max_id) ents

unfoldable pub get_next_id : Io → Disk → ℤ
unfolding max_id_from suc_int
get_next_id io d =
    if d.has_users && io.opendir users_dir then suc_int (max_id_from (pos 0) d.users) else minus_one

-- `v(sem)` and `return`, with what else the caller gets.
unfoldable pub release : {A : Type 0} → Io → ℤ → A → Disk → Outcome (ℤ × A × Disk)
unfolding v
release io r a d = v io.calls d.sem >>= λ freed. ret (r, a, record d { sem = freed })

-- `getsem` and `p(sem)`, before what follows.
abbrev pub take_sem :
    {A : Type 0} → Io → A → Disk → (Disk → Outcome (ℤ × A × Disk)) → Outcome (ℤ × A × Disk)
take_sem io a d rest =
    if is_neg (getsem io.calls)
    then ret (minus_one, a, d)
    else (p io.calls d.sem >>= λ taken. rest (record d { sem = taken }))

-- What `db_add_user` does to the files.
unfoldable pub add_user : Io → Disk → ℤ × Disk
unfolding create_users_dir_if_not_exists get_next_id get_user_path create_file
add_user io d =
    let (r, d₁) = create_users_dir_if_not_exists io d in
    if is_neg r
    then (minus_one, d₁)
    else (let id = get_next_id io d₁ in
        if is_neg id
        then (minus_one, d₁)
        else (let (r', d₂) = create_file io (get_user_path id) d₁ in
            if is_neg r' then (minus_one, d₂) else (id, d₂)))

unfoldable pub db_add_user : Io → Disk → Outcome (ℤ × Unit {0} × Disk)
unfolding create_users_dir_if_not_exists get_next_id get_user_path create_file p release
db_add_user io d = take_sem io tt d (λ d₀.
    let (r, d₁) = create_users_dir_if_not_exists io d₀ in
    if is_neg r
    then release io minus_one tt d₁
    else (let id = get_next_id io d₁ in
        if is_neg id
        then release io minus_one tt d₁
        else (let (r', d₂) = create_file io (get_user_path id) d₁ in
            if is_neg r' then release io minus_one tt d₂ else release io id tt d₂)))
