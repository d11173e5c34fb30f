-- ===== src/Db/Disk.antt =====
-- The files that broker/db-server/db.c works on. A folder is a list of named texts, a file a list
-- of lines. What the file system refuses is an argument.
use sistemas_distribuid.Base.{
  ℕ, ◌≡◌, refl, ℤ, Bool, if◌then◌else◌, text_eq, text_eq_iff, List, [], ◌∷◌, Option, none, some,
  arith,
}
use sistemas_distribuid.Ipc.Kernel.{Calls}

abbrev pub Text : Type 0
Text = List ℕ

pub record File : Type 0 where
  pub name : Text
  pub lines : List Text

abbrev pub Folder : Type 0
Folder = List File

-- `BASE_DB_DIR`, `USERS_DIR`, `TOPICS_DIR`
pub data Dir : Type 0 where
  base_dir users_dir topics_dir : Dir

-- A path below one of the two folders.
pub data FilePath : Type 0 where
  user_path : Text → FilePath
  topic_path : Text → FilePath

pub record Disk : Type 0 where
  pub has_base : Bool
  pub has_users : Bool
  pub has_topics : Bool
  pub users : Folder
  pub topics : Folder
  pub sem : ℕ

-- What the system answers: the calls on the semaphore; if a folder that is there can be opened,
-- and one that is not there can be made; if a file can be opened for reading or for writing, be
-- written to, and be renamed or removed. `unreturned` is what a caller finds where a function ends
-- without a `return`.
pub record Io : Type 0 where
  pub calls : Calls
  pub opendir : Dir → Bool
  pub mkdir : Dir → Bool
  pub reads : FilePath → Bool
  pub writes : FilePath → Bool
  pub puts : FilePath → Bool
  pub renames : FilePath → Bool
  pub unlinks : FilePath → Bool
  pub unreturned : ℤ

-- The lines of a file, if there is one with that name.
unfoldable pub lookup : Text → Folder → Option (List Text)
lookup n [] = none
lookup n (f ∷ fs) = if text_eq f.name n then some f.lines else lookup n fs

-- The file gets these lines, and is made if it is not there.
unfoldable pub store : Text → List Text → Folder → Folder
store n lines [] = record { name = n; lines = lines } ∷ []
store n lines (f ∷ fs) =
    if text_eq f.name n then record f { lines = lines } ∷ fs else f ∷ store n lines fs

unfoldable pub remove : Text → Folder → Folder
remove n [] = []
remove n (f ∷ fs) = if text_eq f.name n then remove n fs else f ∷ remove n fs

pub lookup-store :
    (n m : Text) (lines : List Text) (fs : Folder)
    → lookup m (store n lines fs) ≡ (if text_eq n m then some lines else lookup m fs)
unfolding lookup store
lookup-store n m lines [] = refl
lookup-store n m lines (f ∷ fs) =
    ground (
      arith,
      text_eq_iff n m,
      text_eq_iff f.name n,
      text_eq_iff f.name m,
      lookup-store n m lines fs,
    )

pub lookup-remove :
    (n m : Text) (fs : Folder)
    → lookup m (remove n fs) ≡ (if text_eq n m then none else lookup m fs)
unfolding lookup remove
lookup-remove n m [] = ground arith
lookup-remove n m (f ∷ fs) =
    ground
      (arith, text_eq_iff n m, text_eq_iff f.name n, text_eq_iff f.name m, lookup-remove n m fs)
