-- ===== src/Museum/Staff/Touring.antt =====
-- museum/src/guide.c: what becomes of the guide.
use sistemas_distribuid.Base.{
  ℕ, zero, suc, ◌<◌, ℤ, pos, is_neg, ◌=ℤ◌, ◌≡◌, refl, not, inl, inr, ◌⊎◌, Bool-cases, [],
}
use sistemas_distribuid.Ipc.Kernel.{IsUp, p, p-cases, p-up}
use sistemas_distribuid.Museum.Tour.{Tour}
use sistemas_distribuid.Museum.Tour.Guide.{read_people_lem}
use sistemas_distribuid.Museum.Doors.{get_shm, get_sem}
use sistemas_distribuid.Museum.Doors.Answered.{get_shm-IsBrief, get_sem-IsBrief}
use sistemas_distribuid.Museum.People.{get_queue}
use sistemas_distribuid.Museum.People.Left.{get_queue-IsBrief}
use sistemas_distribuid.Museum.Processes.{
  tour_req_msg, tour_resp_msg, museum_tour_count_shm, museum_tour_count_sem, museum_tour_start_sem,
}
use sistemas_distribuid.Museum.Staff.{Env, timer_child, start_timer, serve, main_guide}
use sistemas_distribuid.Os as Os
use sistemas_distribuid.Os.{Os, Process, timer, log, fork, graceful_quit}
use sistemas_distribuid.Os.Proc.{Result, ret, exits, becomes, hangs, running, fresh, next}
use sistemas_distribuid.Os.Calls.{execl}
use sistemas_distribuid.Os.Calm.{next-Both, if-Over}

-- The others give the semaphore of the count back, and somebody waits for a tour.
pub record IsAwaited (e : Env) : Type 0 where
  pub shared : (s : Process) (t : Tour) → t.count_sem ≡ 1 → (e.others s.history t).count_sem ≡ 1
  pub waiting : (s : Process) (t : Tour) → 0 < (e.others s.history t).count

-- What becomes of its loop.
abbrev IsHeld : Result Tour × Process → Type 0
IsHeld x = (x.0 ≡ hangs) ⊎ ((t : Tour) × (x.0 ≡ ret t) × (t.count_sem ≡ 1))

-- How `main` can be over, for the guide and for its child, beside a run with no round of its loop:
-- where it exits it does so in both, that is, before the loop.
abbrev pub IsStuck : Result Tour × Process → Result Tour × Process → Type 0
IsStuck x start =
    ((code : ℤ) × (x.0 ≡ exits code) × (start.0 ≡ exits code))
    ⊎ ((x.0 ≡ becomes timer) ⊎ ((x.0 ≡ hangs) ⊎ ((t : Tour) × (x.0 ≡ ret t) × (t.count_sem ≡ 1))))

serve-IsHeld :
    (e : Env) (fuel : ℕ) (t : Tour) (s : Process)
    → IsUp e.calls
    → IsAwaited e
    → t.count_sem ≡ 1
    → IsHeld (serve e (suc fuel) t s)
unfolding serve
serve-IsHeld e fuel t s up awaited free =
    let s1 : Process = log graceful_quit (e.os s.history graceful_quit) s in
    let found : Tour = e.others s1.history t in
    let kept = awaited.shared s1 t free in
    let s2 : Process = log graceful_quit (e.os s1.history graceful_quit) s1 in
    if-Over IsHeld _ (not (e.os s.history graceful_quit =ℤ pos 0)) _ _ (λ _. inr (t, refl, free))
      (λ _. elim (p-cases found.start_sem up) [
        | inl asleep ↦ rw asleep (inl refl)
        | inr (n, started) ↦
            let before : Tour = record found { start_sem = n } in
            let there : Tour = e.others s2.history before in
            rw started (
              if-Over IsHeld _ (not (e.os s1.history graceful_quit =ℤ pos 0)) _ _
                (λ _. inr (before, refl, kept))
                (λ _.
                  rw
                    (
                      awaited.shared s2 before kept,
                      p-up 0 up,
                      read_people_lem there.count there.requests there.responses there.count
                          (awaited.waiting s2 before),
                    )
                    (inl refl)))
      ])

begun :
    (os : Os) (s : Process) (f g : ℤ → Process → Result Tour × Process)
    → ((a : ℤ) (t : Process) → IsStuck (f a t) (g a t))
    → IsStuck (next (start_timer os s) f) (next (start_timer os s) g)
unfolding start_timer timer_child execl
begun os s f g on =
    let r : ℤ = os s.history fork in
    let s1 : Process = log fork r s in
    elim (Bool-cases (is_neg r)) [
      | inl refused ↦ rw refused (inl (_, refl, refl))
      | inr made ↦ rw made (elim (Bool-cases (r =ℤ pos 0)) [
        | inr parent ↦ rw parent (on r s1)
        | inl child ↦ rw child (elim (Bool-cases (is_neg (os s1.history (Os.execl timer [])))) [
          | inl failed ↦ rw failed (inl (_, refl, refl))
          | inr done ↦ rw done (inr (inl refl))
        ])
      ])
    ]

ended :
    (x start : Result Tour × Process) (f : Tour → Process → Process)
    → IsHeld x
    → IsStuck (next x (λ t s. (ret t, f t s))) (next start (λ t s. (ret t, f t s)))
ended (ret t, s) start f (inl e) = absurd (cc e)
ended (ret t, s) start f (inr h) = inr (inr (inr h))
ended (exits c, s) start f (inl e) = absurd (cc e)
ended (exits c, s) start f (inr (t, e, _)) = absurd (cc e)
ended (becomes p, s) start f (inl e) = absurd (cc e)
ended (becomes p, s) start f (inr (t, e, _)) = absurd (cc e)
ended (hangs, s) start f h = inr (inr (inl refl))
ended (running, s) start f (inl e) = absurd (cc e)
ended (running, s) start f (inr (t, e, _)) = absurd (cc e)

-- Where somebody waits for a tour whenever the guide looks, and the others give the semaphore of
-- the count back, one round of its loop is enough for main of the guide: it exits before its loop,
-- as it does with no round of it, its child has become the timer, it returns outside of a tour
-- with that semaphore free, as on a signal, or it waits for ever. It never gets to the end of a
-- tour.
pub main_guide-IsStuck :
    (e : Env) (fuel : ℕ) (t : Tour)
    → IsUp e.calls
    → IsAwaited e
    → t.count_sem ≡ 1
    → IsStuck (main_guide e (suc fuel) t fresh) (main_guide e zero t fresh)
unfolding main_guide sistemas_distribuid.Museum.Ipcs.unmap
main_guide-IsStuck e fuel t up awaited free = begun e.os fresh _ _ (λ _ s1.
    next-Both IsStuck (get_queue e.os tour_req_msg s1) _ _ (get_queue-IsBrief e.os tour_req_msg s1)
      (λ c s. inl (c, refl, refl))
      (λ _ s2.
        next-Both IsStuck (get_queue e.os tour_resp_msg s2) _ _
          (get_queue-IsBrief e.os tour_resp_msg s2) (λ c s. inl (c, refl, refl))
          (λ _ s3.
            next-Both IsStuck (get_shm e.os museum_tour_count_shm s3) _ _
              (get_shm-IsBrief e.os museum_tour_count_shm s3) (λ c s. inl (c, refl, refl))
              (λ shm s4.
                next-Both IsStuck (get_sem e.os museum_tour_count_sem s4) _ _
                  (get_sem-IsBrief e.os museum_tour_count_sem s4) (λ c s. inl (c, refl, refl))
                  (λ _ s5.
                    next-Both IsStuck (get_sem e.os museum_tour_start_sem s5) _ _
                      (get_sem-IsBrief e.os museum_tour_start_sem s5) (λ c s. inl (c, refl, refl))
                      (λ _ s6.
                        ended (serve e (suc fuel) t s6) (serve e zero t s6) _
                          (serve-IsHeld e fuel t s6 up awaited free)))))))
