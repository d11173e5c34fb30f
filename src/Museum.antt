-- ===== src/Museum.antt =====
-- museum/src: constants.h, message.h, and the shared memory behind the doors, entranceDoor.c and
-- exitDoor.c, and admin.c. The semaphores are those of broker/common/ipc, whose text museum/src has
-- in its own headers.
pub mod Visits
pub mod Tour
pub mod Ipcs
pub mod Processes
pub mod Doors
pub mod People
pub mod Staff
use sistemas_distribuid.Base.{
  ℕ, zero, suc, ◌+◌, ◌-◌, ℤ, pos, ◌=ℤ◌, ltb, Bool, true, false, ◌&&◌, if◌then◌else◌, Option, none,
  some, Outcome, ret, ◌>>=◌,
}
use sistemas_distribuid.Ipc.Kernel.{Calls, p, v}

abbrev pub museum_cap : ℕ
museum_cap = 20

abbrev pub tour_cap : ℕ
tour_cap = 5

abbrev pub entrance_request : ℤ
entrance_request = pos 1

abbrev pub exit_request : ℤ
exit_request = pos 2

abbrev pub accept : ℤ
accept = pos 3

abbrev pub reject : ℤ
reject = pos 4

-- The places that are left, whether the museum is open, and the value of the semaphore of the
-- first. A place is taken only where one is left, so their number is never negative.
pub record Hall : Type 0 where
  pub cap : ℕ
  pub is_open : Bool
  pub sem : ℕ

-- `create_museum` of main.c, with every call succeeding
unfoldable pub create_museum : Hall
create_museum = record { cap = museum_cap; is_open = true; sem = 1 }

-- One round of the loop of entranceDoor.c: the type of the response, or none for a message that is
-- discarded.
unfoldable pub entrance_door : Calls → ℤ → Hall → Outcome (Option ℤ × Hall)
entrance_door k type h =
    if type =ℤ entrance_request
    then (p k h.sem >>= λ taken.
        let admitted = ltb 0 h.cap && h.is_open in
        v k taken >>= λ freed. ret (
          some (if admitted then accept else reject),
          record h { cap = if admitted then h.cap - 1 else h.cap; sem = freed },
        ))
    else ret (none, h)

-- One round of the loop of exitDoor.c
unfoldable pub exit_door : Calls → ℤ → Hall → Outcome (Option ℤ × Hall)
exit_door k type h =
    if type =ℤ exit_request
    then (p k h.sem >>= λ taken.
        v k taken >>= λ freed. ret (some accept, record h { cap = h.cap + 1; sem = freed }))
    else ret (none, h)

-- The options of admin.c that change the shared memory: 1 opens, 2 closes.
unfoldable pub admin : ℤ → Hall → Hall
admin option h =
    if option =ℤ pos 1
    then record h { is_open = true }
    else if option =ℤ pos 2
    then record h { is_open = false }
    else h
