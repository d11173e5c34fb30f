-- ===== src/Museum/People/Left.antt =====
-- museum/src/person.c: how a person's `main` ends.
use mathlib.Core.List.{Memᴰ}
use sistemas_distribuid.Base.{ℕ, ℤ, is_neg, ◌=ℤ◌, ◌≡◌, ◌⊎◌, true, false}
use sistemas_distribuid.Museum.{exit_request, entrance_request, accept}
use sistemas_distribuid.Museum.Tour as Tour
use sistemas_distribuid.Museum.Tour.{Tour, Message}
use sistemas_distribuid.Museum.Tour.Guide.{IsSound}
use sistemas_distribuid.Museum.Ipcs.{getmsg, getmsg-IsBrief}
use sistemas_distribuid.Museum.People.{Env, get_queue}
use sistemas_distribuid.Os.{Os, Process, msgsnd}
use sistemas_distribuid.Os.Proc.{Result, ret, exits}
use sistemas_distribuid.Os.Calm.{IsBrief, bind-IsBrief, if-Brief}
use sistemas_distribuid.Os.Children.{event}

pub get_queue-IsBrief : (os : Os) (id : ℕ) → IsBrief (get_queue os id)
unfolding get_queue
get_queue-IsBrief os id =
    bind-IsBrief (getmsg os id) _ (getmsg-IsBrief os id)
      (λ queue s. if-Brief s (is_neg queue) _ _ tt tt)

-- What the person finds of the tour is as all who use it leave it.
abbrev pub IsKept : Env → Type 0
IsKept e = (s : Process) → IsSound (e.tour s.history)

-- The person has asked to be let out.
abbrev pub HasAsked : Process → Type 0
HasAsked s = (queue : ℤ) × (r : ℤ) × Memᴰ (event (msgsnd queue exit_request) r) s.history

-- How `main` can be over.
abbrev pub IsGone : Result Message × Process → Type 0
IsGone x =
    ((code : ℤ) × (x.0 ≡ exits code))
    ⊎ ((msg : Message) × (x.0 ≡ ret msg)
        × (((msg.type =ℤ accept) ≡ false) ⊎ (((msg.type =ℤ accept) ≡ true) × HasAsked x.1)))
