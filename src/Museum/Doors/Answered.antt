-- ===== src/Museum/Doors/Answered.antt =====
-- museum/src/entranceDoor.c and exitDoor.c: which requests a door answers, and how `main` ends.
use sistemas_distribuid.Base.{
  ℕ, zero, suc, ◌+◌, ◌≤◌, ℤ, pos, is_neg, ◌=ℤ◌, ◌≡◌, refl, not, inl, inr, ◌⊎◌, [], length, Option,
  Outcome, arith,
}
use sistemas_distribuid.Ipc.Kernel.{IsUp}
use sistemas_distribuid.Os.Proc.{lift, Result, ret, exits, becomes, hangs, running, fresh, next}
use sistemas_distribuid.Museum.{
  Hall, entrance_door, exit_door, entrance_request, exit_request, accept, reject,
}
use sistemas_distribuid.Museum.Tour.{Message}
use sistemas_distribuid.Museum.Doors.{
  Env, Door, serve, get_queues, get_shm, get_sem, main_entrance, main_exit,
}
use sistemas_distribuid.Os.{Os, Process, log, graceful_quit, msgrcv}
use sistemas_distribuid.Os.Keeps.{IsSignalled, After, if-After}
use sistemas_distribuid.Os.Calm.{
  Calm, IsCalm, bind-IsCalm, if-Calm, lift-IsCalm, Brief, IsBrief, bind-IsBrief, if-Brief,
  next-Brief, next-Both,
}
use sistemas_distribuid.Museum.Processes.{museum_cap_shm, museum_cap_sem, museum_open_shm}
use sistemas_distribuid.Museum.Ipcs.{
  getmsg, getsem, getshm, map, getmsg-IsBrief, getsem-IsBrief, getshm-IsBrief, map-IsBrief,
}
use sistemas_distribuid.Museum.Doors.Round.{
  IsAnswered, IsRound, one_more, Entrance, Exit, entrance_door-IsRound, exit_door-IsRound,
}

-- The other processes give the semaphore back.
abbrev pub IsFair : Env → Type 0
IsFair e = (s : Process) (h : Hall) → h.sem ≡ 1 → (e.others s.history h).sem ≡ 1

-- It has returned.
abbrev Ran : ℤ → (ℤ → Type 0) → Result Door × Process → Type 0
Ran request P x = (d : Door) × (x.0 ≡ ret d) × IsAnswered request P d

-- How `main` can be over, beside a run with no round of its loop: it exits in both, that is, before
-- the loop; or it returns.
abbrev pub IsOver : ℤ → (ℤ → Type 0) → Result Door × Process → Result Door × Process → Type 0
IsOver request P x start =
    ((code : ℤ) × (x.0 ≡ exits code) × (start.0 ≡ exits code))
    ⊎ ((d : Door) × (x.0 ≡ ret d) × IsAnswered request P d)

module _ {request : ℤ} {P : ℤ → Type 0} (e : Env) (round : ℤ → Hall → Outcome (Option ℤ × Hall))
    (door : IsRound round request P) where
  serve-IsAnswered :
      (queue : ℤ) (n fuel : ℕ) (d : Door) (s : Process)
      → IsFair e
      → IsSignalled e.os n
      → n ≤ fuel + length s.history
      → IsAnswered request P d
      → After (λ d' _. IsAnswered request P d') (λ _ _. ⊥) (serve e round queue (suc fuel) d s)
  unfolding serve sistemas_distribuid.Museum.Ipcs.rcvmsg
  serve-IsAnswered queue n zero d s fair signalled made a = rw (signalled s.history (omega arith)) a
  serve-IsAnswered queue n (suc fuel) d s fair signalled made a =
      let q : ℤ = e.os s.history graceful_quit in
      let s1 : Process = log graceful_quit q s in
      let s2 : Process = log (msgrcv queue) (e.os s1.history (msgrcv queue)) s1 in
      let q' : ℤ = e.os s2.history graceful_quit in
      let s3 : Process = log graceful_quit q' s2 in
      let msg : Message = e.received s3.history in
      let (answer, h', eq, a') =
        one_more e round door d msg (e.others s3.history d.hall) a (fair s3 d.hall a.free) in
      if-After _ (λ _ _. ⊥) _ (not (q =ℤ pos 0)) _ _ (λ _. a)
        (λ _.
          if-After _ (λ _ _. ⊥) _ (not (q' =ℤ pos 0)) _ _ (λ _. a)
            (λ _. rw eq (serve-IsAnswered queue n fuel _ s3 fair signalled (omega arith) a')))

  serve-Calm : (queue : ℤ) (fuel : ℕ) (d : Door) → IsCalm (serve e round queue fuel d)
  unfolding serve sistemas_distribuid.Museum.Ipcs.rcvmsg
  serve-Calm queue zero d s = tt
  serve-Calm queue (suc fuel) d s =
      let q : ℤ = e.os s.history graceful_quit in
      let s1 : Process = log graceful_quit q s in
      let s2 : Process = log (msgrcv queue) (e.os s1.history (msgrcv queue)) s1 in
      let q' : ℤ = e.os s2.history graceful_quit in
      let s3 : Process = log graceful_quit q' s2 in
      let o = round (e.received s3.history).type (e.others s3.history d.hall) in
      if-Calm _ (not (q =ℤ pos 0)) _ _ tt (
        if-Calm _ (not (q' =ℤ pos 0)) _ _ tt
          (bind-IsCalm (lift o) _ (lift-IsCalm o) (λ (answer, h). serve-Calm queue fuel _) s3))

  -- The loop returns.
  serve-Ran :
      (queue : ℤ) (n : ℕ) (d : Door) (s : Process)
      → IsFair e
      → IsSignalled e.os n
      → IsAnswered request P d
      → Ran request P (serve e round queue (suc n) d s)
  serve-Ran queue n d s fair signalled a =
      over (serve e round queue (suc n) d s)
        (serve-IsAnswered queue n n d s fair signalled (omega arith) a)
        (serve-Calm queue (suc n) d s)
    where
      over :
          (x : Result Door × Process)
          → After (λ d' _. IsAnswered request P d') (λ _ _. ⊥) x
          → Calm x
          → Ran request P x
      over (ret d', s) a c = (d', refl, a)
      over (exits code, s) a c = elim a [ ]
      over (becomes p, s) a c = elim c [ ]
      over (hangs, s) a c = elim a [ ]
      over (running, s) a c = elim a [ ]

get_queues-IsBrief : (os : Os) (req resp : ℕ) → IsBrief (get_queues os req resp)
unfolding get_queues
get_queues-IsBrief os req resp = bind-IsBrief (getmsg os req) _ (getmsg-IsBrief os req) (λ q.
    bind-IsBrief (getmsg os resp) _ (getmsg-IsBrief os resp)
      (λ r s. if-Brief s (is_neg q) _ _ tt (if-Brief s (is_neg r) _ _ tt tt)))

pub get_shm-IsBrief : (os : Os) (id : ℕ) → IsBrief (get_shm os id)
unfolding get_shm
get_shm-IsBrief os id = bind-IsBrief (getshm os id) _ (getshm-IsBrief os id) (λ shm s.
    if-Brief s (is_neg shm) _ _ tt
      (next-Brief Brief (map os shm s) _ (map-IsBrief os shm s) (λ _ _. tt) (λ _ _. tt)))

pub get_sem-IsBrief : (os : Os) (id : ℕ) → IsBrief (get_sem os id)
unfolding get_sem
get_sem-IsBrief os id =
    bind-IsBrief (getsem os id) _ (getsem-IsBrief os id)
      (λ sem s. if-Brief s (is_neg sem) _ _ tt tt)

-- The calls at the start of a door: they go on, or exit.
starts :
    {A : Type 0} (request : ℤ) (P : ℤ → Type 0) (m : Result A × Process)
    (f g : A → Process → Result Door × Process)
    → Brief m
    → ((a : A) (s : Process) → IsOver request P (f a s) (g a s))
    → IsOver request P (next m f) (next m g)
starts request P m f g b on = next-Both (IsOver request P) m f g b (λ c s. inl (c, refl, refl)) on

-- The calls at its end.
ends :
    (request : ℤ) (P : ℤ → Type 0) (x start : Result Door × Process) (f : Door → Process → Process)
    → Ran request P x
    → IsOver request P (next x (λ d s. (ret d, f d s))) (next start (λ d s. (ret d, f d s)))
ends request P (ret d, s) start f h = inr h
ends request P (exits c, s) start f (d, e, _) = absurd (cc e)
ends request P (becomes p, s) start f (d, e, _) = absurd (cc e)
ends request P (hangs, s) start f (d, e, _) = absurd (cc e)
ends request P (running, s) start f (d, e, _) = absurd (cc e)

main_entrance-IsOver :
    (e : Env) (req resp n : ℕ) (d : Door)
    → IsUp e.calls
    → IsFair e
    → IsSignalled e.os n
    → IsAnswered entrance_request Entrance d
    → IsOver entrance_request Entrance
        (main_entrance e req resp (suc n) d fresh)
        (main_entrance e req resp zero d fresh)
unfolding main_entrance sistemas_distribuid.Museum.Ipcs.unmap
main_entrance-IsOver e req resp n d up fair signalled a =
    starts entrance_request Entrance (get_queues e.os req resp fresh) _ _
      (get_queues-IsBrief e.os req resp fresh)
      (λ queue s1.
        starts entrance_request Entrance (get_shm e.os museum_cap_shm s1) _ _
          (get_shm-IsBrief e.os museum_cap_shm s1)
          (λ cap s2.
            starts entrance_request Entrance (get_sem e.os museum_cap_sem s2) _ _
              (get_sem-IsBrief e.os museum_cap_sem s2)
              (λ sem s3.
                starts entrance_request Entrance (get_shm e.os museum_open_shm s3) _ _
                  (get_shm-IsBrief e.os museum_open_shm s3)
                  (λ open_shm s4.
                    ends entrance_request Entrance
                      (serve e (entrance_door e.calls) queue (suc n) d s4)
                      (serve e (entrance_door e.calls) queue zero d s4) _
                      (serve-Ran e (entrance_door e.calls) (entrance_door-IsRound up) queue n d s4
                        fair signalled a)))))

main_exit-IsOver :
    (e : Env) (req resp n : ℕ) (d : Door)
    → IsUp e.calls
    → IsFair e
    → IsSignalled e.os n
    → IsAnswered exit_request Exit d
    → IsOver exit_request Exit
        (main_exit e req resp (suc n) d fresh)
        (main_exit e req resp zero d fresh)
unfolding main_exit sistemas_distribuid.Museum.Ipcs.unmap
main_exit-IsOver e req resp n d up fair signalled a =
    starts exit_request Exit (get_queues e.os req resp fresh) _ _
      (get_queues-IsBrief e.os req resp fresh)
      (λ queue s1.
        starts exit_request Exit (get_shm e.os museum_cap_shm s1) _ _
          (get_shm-IsBrief e.os museum_cap_shm s1)
          (λ cap s2.
            starts exit_request Exit (get_sem e.os museum_cap_sem s2) _ _
              (get_sem-IsBrief e.os museum_cap_sem s2)
              (λ sem s3.
                ends exit_request Exit (serve e (exit_door e.calls) queue (suc n) d s3)
                  (serve e (exit_door e.calls) queue zero d s3) _
                  (serve-Ran e (exit_door e.calls) (exit_door-IsRound up) queue n d s3 fair
                    signalled a))))

-- A door before its first message.
abbrev pub opened : Hall → Door
opened h = record { hall = h; read = []; responses = [] }

-- Where the semaphore is there and free, the other processes give it back whenever they have taken
-- it, and the signal arrives before main of a door has made n calls: n + 1 rounds of its loop are
-- enough for an entrance door and for the exit door, and main exits before its loop, as it does
-- with no round of it, or returns; then the semaphore is free, and the door has sent one response
-- for each request of its kind among the messages that it has read and none for any other, in
-- their order and each under the type that the request came with; an entrance door answers ACCEPT
-- or REJECT, the exit door ACCEPT.
pub doors-IsOver :
    (e : Env) (req resp n : ℕ) (h : Hall)
    → IsUp e.calls
    → IsFair e
    → IsSignalled e.os n
    → h.sem ≡ 1
    → IsOver entrance_request Entrance
        (main_entrance e req resp (suc n) (opened h) fresh)
        (main_entrance e req resp zero (opened h) fresh)
      × IsOver exit_request Exit
          (main_exit e req resp (suc n) (opened h) fresh)
          (main_exit e req resp zero (opened h) fresh)
doors-IsOver e req resp n h up fair signalled free = (
  main_entrance-IsOver e req resp n (opened h) up fair signalled
      (record { free = free; paired = refl; fitting = tt }),
  main_exit-IsOver e req resp n (opened h) up fair signalled
      (record { free = free; paired = refl; fitting = tt }),
)
