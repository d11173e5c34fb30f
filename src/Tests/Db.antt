-- ===== src/Tests/Db.antt =====
-- broker/db-server: the user 1 subscribes to the topic "a" of a database that is made for it.
use sistemas_distribuid.Base.{
  ◌≤◌, ◌<◌, ◌≡◌, ◌≢◌, refl, subst, pos, if◌then◌else◌, true, false, print, text_eq, [], ◌∷◌, ◌++◌,
  length, replicate, none, some, strtol, Outcome, ret, blocked, exits, arith,
}
use sistemas_distribuid.Ipc.Message.{max_topic_length, strncpy}
use sistemas_distribuid.Ipc.Kernel.{getsem}
use sistemas_distribuid.Ipc.Vector.{items}
use sistemas_distribuid.Db.Disk.{Text, Disk, Io, lookup, store, remove}
use sistemas_distribuid.Db.Files.{
  IsFileName, release, db_add_user, add_user, create_topics_dir_if_not_exists,
  create_file_if_not_exists, append_to_file,
}
use sistemas_distribuid.Db.Files.Working.{IsWorking}
use sistemas_distribuid.Db.Subscriptions.{
  db_subscribe, db_delete, subscribe, delete, unsubscribe_all, unsubscribe, copy_others, rename,
}
use sistemas_distribuid.Db.Subscriptions.Laws.{subs, topics_of, others, is_some, subscribe-exact}
use sistemas_distribuid.Db.Subscriptions.Delete.{IsPlain}
use sistemas_distribuid.Db.Consistency.{IsConsistent, delete-exact}
use sistemas_distribuid.Db.Consistency.Kept.{subscribe-IsConsistent, add_user-IsConsistent}
use sistemas_distribuid.Db.Consistency.Reach.{
  here, next, add_user_step, subscribe_step, delete_step, IsReady, Reach-IsReady,
}
use sistemas_distribuid.Db.Released.{Releases, db-released}
use sistemas_distribuid.Db.Handler.{DbMsg, get_subscribed_type, process_message}
use sistemas_distribuid.Db.Connection.{Link, db_get_subscribed}
use sistemas_distribuid.Db.Connection.Answered.{Carries, db_get_subscribed_lem}
use sistemas_distribuid.Server.GlobalId.{max_clients}
use sistemas_distribuid.Tests.Setup.{calls, calls-IsUp, vector, vector-IsVector}

abbrev io : Io
io = record {
  calls = calls;
  opendir = λ d. true;
  mkdir = λ d. true;
  reads = λ f. true;
  writes = λ f. true;
  puts = λ f. true;
  renames = λ f. true;
  unlinks = λ f. true;
  unreturned = pos 0;
}

io-IsWorking : IsWorking io
io-IsWorking = record {
  up = calls-IsUp;
  opens = λ d. refl;
  makes = λ d. refl;
  reads = λ f. refl;
  writes = λ f. refl;
  puts = λ f. refl;
  renames = λ f. refl;
  unlinks = λ f. refl;
  returned = refl;
}

abbrev topic : Text
topic = b'a' ∷ []

topic-IsFileName : IsFileName topic
topic-IsFileName = (refl, refl, refl, refl, refl)

topic-IsPlain : IsPlain topic
topic-IsPlain = refl

abbrev no_files : Disk
no_files = record {
  has_base = false;
  has_users = false;
  has_topics = false;
  users = [];
  topics = [];
  sem = 1;
}

abbrev one_user : Disk
one_user = record no_files {
  has_base = true;
  has_users = true;
  users = record { name = b'1' ∷ []; lines = [] } ∷ [];
}

abbrev one_subscriber : Disk
one_subscriber = record one_user {
  has_topics = true;
  users = record { name = b'1' ∷ []; lines = topic ∷ [] } ∷ [];
  topics = record { name = topic; lines = (b'1' ∷ []) ∷ [] } ∷ [];
}

no_files-IsConsistent : IsConsistent no_files
unfolding lookup
no_files-IsConsistent = record {
  listed = λ t i plain member. absurd (false≢true member);
  exist = λ n t member. absurd (false≢true member);
}
  where
    false≢true : false ≢ true
    false≢true h = cc

user_made : (add_user io no_files).1 ≡ one_user
unfolding add_user store print lookup
user_made = refl

subscribed : (subscribe io (pos 1) topic one_user).1 ≡ one_subscriber
unfolding subscribe create_topics_dir_if_not_exists lookup print create_file_if_not_exists
    append_to_file store
subscribed = refl

found_user : is_some (lookup (print (pos 1)) one_user.users) ≡ true
unfolding lookup print
found_user = refl

found_subscriber : is_some (lookup (print (pos 1)) one_subscriber.users) ≡ true
unfolding lookup print
found_subscriber = refl

one_user-IsConsistent : IsConsistent one_user
one_user-IsConsistent =
    subst IsConsistent user_made (add_user-IsConsistent no_files io-IsWorking no_files-IsConsistent)

one_subscriber-IsConsistent : IsConsistent one_subscriber
one_subscriber-IsConsistent = subst IsConsistent subscribed (
    subscribe-IsConsistent (pos 1) topic one_user io-IsWorking one_user-IsConsistent (omega arith)
      topic-IsPlain found_user)

abbrev nobody : Disk
nobody = record one_subscriber { users = []; topics = record { name = topic; lines = [] } ∷ [] }

added : db_add_user io no_files ≡ ret (pos 1, tt, one_user)
unfolding db_add_user getsem release add_user store print lookup
added = refl

then_subscribed : db_subscribe io (pos 1) topic one_user ≡ ret (pos 0, tt, one_subscriber)
unfolding db_subscribe getsem release subscribe create_topics_dir_if_not_exists lookup print
    create_file_if_not_exists append_to_file store
then_subscribed = refl

then_deleted : db_delete io (pos 1) one_subscriber ≡ ret (pos 0, tt, nobody)
unfolding db_delete getsem release delete unsubscribe_all unsubscribe copy_others rename lookup
    print store remove strtol
then_deleted = refl

Reach-IsReady_example : IsReady nobody
Reach-IsReady_example =
    Reach-IsReady io-IsWorking (record { files = no_files-IsConsistent; free = refl })
      (next
        (next (next here (add_user_step (pos 1) added)) (
          subscribe_step (pos 0) (pos 1) topic (omega arith) topic-IsFileName topic-IsPlain
            then_subscribed))
        (delete_step (pos 0) (pos 1) (omega arith) then_deleted))

delete-exact_example :
    let r = delete io (pos 1) one_subscriber in
    (r.0 ≡ pos 0)
    × (lookup (b'1' ∷ []) r.1.users ≡ (
        if text_eq (print (pos 1)) (b'1' ∷ [])
        then none
        else lookup (b'1' ∷ []) one_subscriber.users))
    × (subs topic r.1 ≡ others (pos 1) (subs topic one_subscriber))
delete-exact_example =
    delete-exact (pos 1) one_subscriber (b'1' ∷ []) topic io-IsWorking one_subscriber-IsConsistent
      found_subscriber topic-IsPlain

subscribe-exact_example :
    let r = subscribe io (pos 1) topic one_user in
    (r.0 ≡ pos 0)
    × (lookup (b'1' ∷ []) r.1.users ≡ (
        if text_eq (print (pos 1)) (b'1' ∷ [])
        then some (topics_of (pos 1) one_user ++ topic ∷ [])
        else lookup (b'1' ∷ []) one_user.users))
    × (subs topic r.1
        ≡ (if text_eq topic topic then subs topic one_user ++ pos 1 ∷ [] else subs topic one_user))
subscribe-exact_example =
    subscribe-exact (pos 1) topic one_user (b'1' ∷ []) topic io-IsWorking topic-IsFileName
      (omega arith) found_user

-- A file system that opens no file for writing.
abbrev read_only : Io
read_only = record io { writes = λ f. false }

db-released_example :
    let held : Disk = record one_user { sem = 0 } in
    Releases (db_add_user read_only one_user) (add_user read_only held).0
    × Releases
        (db_subscribe read_only (pos 1) topic one_user)
        (subscribe read_only (pos 1) topic held).0
    × Releases (db_delete read_only (pos 1) one_user) (delete read_only (pos 1) held).0
db-released_example = db-released read_only one_user (pos 1) topic calls-IsUp refl

abbrev request_msg : DbMsg
request_msg = record {
  global_id = pos 0;
  type = get_subscribed_type;
  topic = topic;
  sub_count = pos 0;
  sub_ids = replicate 50 (pos 0);
}

one_listed : length (subs topic one_subscriber) ≤ max_clients
unfolding lookup
one_listed = omega arith

some_listed : 0 < length (subs (strncpy max_topic_length topic) one_subscriber)
unfolding lookup strncpy
some_listed = omega arith

few_listed : length (subs (strncpy max_topic_length topic) one_subscriber) ≤ max_clients
unfolding lookup strncpy
few_listed = omega arith

abbrev answer_of : DbMsg → Outcome (DbMsg × Disk) → DbMsg
answer_of m (ret (m', d)) = m'
answer_of m blocked = m
answer_of m (exits c) = m

-- A connection with the handler at its other end holds the message that is under way.
abbrev link : Link DbMsg
link = record {
  send = λ m c. (pos 1, m);
  receive = λ m c. (pos 1, answer_of c (process_message vector io c one_subscriber), request_msg);
}

link-Carries : Carries link vector io one_subscriber request_msg request_msg
link-Carries = record {
  between = λ m. m;
  sent = λ m. (0, refl);
  received = λ m m' e. (0, rw e refl);
}

db_get_subscribed_example :
    let r = db_get_subscribed link request_msg vector topic [] request_msg in
    (r.0 ≡ pos 0)
    × (items vector r.1 ≡ items vector [] ++ subs (strncpy max_topic_length topic) one_subscriber)
db_get_subscribed_example =
    db_get_subscribed_lem request_msg topic [] vector-IsVector io-IsWorking link-Carries refl refl
      some_listed few_listed
