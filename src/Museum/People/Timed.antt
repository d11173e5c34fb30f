-- ===== src/Museum/People/Timed.antt =====
-- museum/src/timer.c: how `main` ends.
use sistemas_distribuid.Base.{
  ℕ, zero, suc, ◌+◌, ◌≤◌, ◌<◌, ℤ, pos, ◌=ℤ◌, ◌≡◌, refl, not, inl, inr, ◌⊎◌, Bool-cases, ltb, length,
  arith, true, false, if◌then◌else◌, Bool,
}
use sistemas_distribuid.Base as Base
use sistemas_distribuid.Ipc.Kernel.{Calls, IsUp, p-up, v-up}
use sistemas_distribuid.Museum.Tour.{Tour, tick}
use sistemas_distribuid.Museum.Doors.{get_shm, get_sem}
use sistemas_distribuid.Museum.Doors.Answered.{get_shm-IsBrief, get_sem-IsBrief}
use sistemas_distribuid.Museum.Processes.{
  museum_tour_count_shm, museum_tour_count_sem, museum_tour_start_sem,
}
use sistemas_distribuid.Museum.People.{Clock, serve_timer, main_timer}
use sistemas_distribuid.Os.{Process, log, graceful_quit}
use sistemas_distribuid.Os.Proc.{Result, ret, exits, becomes, hangs, running, fresh, next}
use sistemas_distribuid.Os.Keeps.{IsSignalled}
use sistemas_distribuid.Os.Calm.{next-Brief, if-Over}

-- Where the semaphore of the count is free, the timer gives it back, and raises that of the start
-- exactly where somebody waits.
tick_lem :
    {k : Calls} (t : Tour)
    → IsUp k
    → t.count_sem ≡ 1
    → tick k t
      ≡ Base.ret (record t {
        count_sem = 1;
        start_sem = if ltb 0 t.count then suc t.start_sem else t.start_sem;
      })
unfolding tick
tick_lem t up free = elim (Bool-cases (ltb 0 t.count)) [
  | inl waits ↦ rw (free, p-up 0 up, waits, v-up t.start_sem up, v-up 0 up) refl
  | inr none_waits ↦ rw (free, p-up 0 up, none_waits, v-up 0 up) refl
]

-- The other processes give the semaphore back.
abbrev IsShared : Clock → Type 0
IsShared e = (s : Process) (t : Tour) → t.count_sem ≡ 1 → (e.others s.history t).count_sem ≡ 1

abbrev pub IsOver : Result Tour × Process → Type 0
IsOver x = ((code : ℤ) × (x.0 ≡ exits code)) ⊎ ((t : Tour) × (x.0 ≡ ret t) × (t.count_sem ≡ 1))

serve_timer-IsOver :
    (e : Clock) (n fuel : ℕ) (t : Tour) (s : Process)
    → IsUp e.calls
    → IsShared e
    → IsSignalled e.os n
    → n ≤ fuel + length s.history
    → t.count_sem ≡ 1
    → IsOver (serve_timer e (suc fuel) t s)
unfolding serve_timer
serve_timer-IsOver e n zero t s up shared signalled made free =
    rw (signalled s.history (omega arith)) (inr (t, refl, free))
serve_timer-IsOver e n (suc fuel) t s up shared signalled made free =
    let s1 : Process = log graceful_quit (e.os s.history graceful_quit) s in
    let s2 : Process = log graceful_quit (e.os s1.history graceful_quit) s1 in
    let found : Tour = e.others s2.history t in
    if-Over IsOver _ (not (e.os s.history graceful_quit =ℤ pos 0)) _ _ (λ _. inr (t, refl, free))
      (λ _.
        if-Over IsOver _ (not (e.os s1.history graceful_quit =ℤ pos 0)) _ _
          (λ _. inr (t, refl, free))
          (λ _.
            rw (tick_lem found up (shared s2 t free))
              (serve_timer-IsOver e n fuel _ s2 up shared signalled (omega arith) refl)))

ends :
    (x : Result Tour × Process) (f : Tour → Process → Process)
    → IsOver x
    → IsOver (next x (λ t s. (ret t, f t s)))
ends (ret t, s) f h = h
ends (exits c, s) f h = h
ends (becomes p, s) f h = h
ends (hangs, s) f h = h
ends (running, s) f h = h

-- Where the semaphore of the count is there and free, the others give it back whenever they have
-- taken it, and the signal arrives before main of the timer has made n calls: n + 1 rounds of its
-- loop are enough, and it exits at its start, or returns with that semaphore free.
main_timer-IsOver :
    (e : Clock) (n : ℕ) (t : Tour)
    → IsUp e.calls
    → IsShared e
    → IsSignalled e.os n
    → t.count_sem ≡ 1
    → IsOver (main_timer e (suc n) t fresh)
unfolding main_timer sistemas_distribuid.Museum.Ipcs.unmap
main_timer-IsOver e n t up shared signalled free =
    next-Brief IsOver (get_shm e.os museum_tour_count_shm fresh) _
      (get_shm-IsBrief e.os museum_tour_count_shm fresh) (λ c s. inl (c, refl))
      (λ shm s1.
        next-Brief IsOver (get_sem e.os museum_tour_count_sem s1) _
          (get_sem-IsBrief e.os museum_tour_count_sem s1) (λ c s. inl (c, refl))
          (λ _ s2.
            next-Brief IsOver (get_sem e.os museum_tour_start_sem s2) _
              (get_sem-IsBrief e.os museum_tour_start_sem s2) (λ c s. inl (c, refl))
              (λ _ s3.
                ends (serve_timer e (suc n) t s3) _
                  (serve_timer-IsOver e n n t s3 up shared signalled (omega arith) free))))
