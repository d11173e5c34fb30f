-- ===== src/Server/Worker/Process/Handled.antt =====
-- broker/server/worker.c: which messages `main` handles, and how it ends.
use mathlib.Core.Bool.{true≢false}
use sistemas_distribuid.Base.{
  sym, ◌∙◌, ℕ, zero, suc, ◌+◌, ◌≤◌, ℤ, pos, is_neg, ◌=ℤ◌, ◌≡◌, refl, true, false, not, List, [],
  ◌∷◌, length, arith, ◌⊎◌, inl, inr, Bool-cases,
}
use sistemas_distribuid.Base as Base
use sistemas_distribuid.Ipc.Message.{Msg}
use sistemas_distribuid.Ipc.Kernel.{Calls, IsUp, getshm}
use sistemas_distribuid.Ipc.MsgQueue.{IsMsgQueue}
use sistemas_distribuid.Server.GlobalId.{global_ids_get, IsValid}
use sistemas_distribuid.Server.Worker.{World, process_msg, worker}
use sistemas_distribuid.Server.Worker.Total.{process_msg_total}
use sistemas_distribuid.Server.Processes.{worker_queue, resp_queue}
use sistemas_distribuid.Server.Worker.Process.{
  Host, db_port, get_worker_queue, get_resp_queue, db_connect, db_disconnect, serve, main,
}
use sistemas_distribuid.Os.{Os, Event, Process, log, close, graceful_quit, msgrcv}
use sistemas_distribuid.Os.Proc.{Result, ret, exits, becomes, hangs, running, lift, next, fresh}
use sistemas_distribuid.Os.Calls.{getmsg, create_client_socket}
use sistemas_distribuid.Os.Keeps.{IsSignalled, After, if-After, After-map}
use sistemas_distribuid.Os.Calm.{
  Calm, IsCalm, bind-IsCalm, if-Calm, lift-IsCalm, IsBrief, bind-IsBrief, if-Brief, next-Both,
  getmsg-IsBrief, create_client_socket-IsBrief,
}
use sistemas_distribuid.Os.Children.{event}

get_worker_queue-IsBrief : (os : Os) → IsBrief (get_worker_queue os)
unfolding get_worker_queue
get_worker_queue-IsBrief os =
    bind-IsBrief (getmsg os worker_queue) _ (getmsg-IsBrief os worker_queue)
      (λ queue s. if-Brief s (is_neg queue) _ _ tt tt)

get_resp_queue-IsBrief : (os : Os) → IsBrief (get_resp_queue os)
unfolding get_resp_queue
get_resp_queue-IsBrief os =
    bind-IsBrief (getmsg os resp_queue) _ (getmsg-IsBrief os resp_queue)
      (λ queue s. if-Brief s (is_neg queue) _ _ tt tt)

global_ids_get-IsBrief : (k : Calls) → IsBrief (lift (global_ids_get k))
unfolding global_ids_get
global_ids_get-IsBrief k s = elim (Bool-cases (is_neg (getshm k))) [
  | inl missing ↦ rw missing tt
  | inr found ↦ rw found tt
]

module _ {D Q V : Type 0} (e : Host D Q V) where
  -- From one history to another the loop has received these messages, one in each round between
  -- two looks at the flag, which was not set; then it was.
  abbrev pub Rounds : ℤ → List Event → List Msg → List Event → Type 0
  Rounds queue h [] h' =
      (q : ℤ) × (not (q =ℤ pos 0) ≡ true)
      × ((h' ≡ event graceful_quit q ∷ h)
          ⊎ ((a : ℤ) × (r : ℤ) × (not (a =ℤ pos 0) ≡ false)
              × (h' ≡ event graceful_quit q ∷ event (msgrcv queue) r ∷ event graceful_quit a ∷ h)))
  Rounds queue h (msg ∷ msgs) h' =
      (a : ℤ) × (r : ℤ) × (b : ℤ) × (not (a =ℤ pos 0) ≡ false)
      × (not (b =ℤ pos 0) ≡ false)
      × (msg
          ≡ e.received (event graceful_quit b ∷ event (msgrcv queue) r ∷ event graceful_quit a ∷ h))
      × Rounds queue (event graceful_quit b ∷ event (msgrcv queue) r ∷ event graceful_quit a ∷ h)
          msgs h'

  -- The worker has handled those messages, one after the other, and its table is still valid.
  abbrev pub Handled : ℤ → List Event → World D Q → World D Q → List Event → Type 0
  Handled queue h w w' h' =
      (msgs : List Msg) × Rounds queue h msgs h'
      × (worker e.env msgs w ≡ Base.ret w')
      × IsValid w'.ids

  -- The loop returns.
  abbrev Ran : ℤ → List Event → World D Q → Result (World D Q) × Process → Type 0
  Ran queue h w x = (w' : World D Q) × (x.0 ≡ ret w') × Handled queue h w w' x.1.history

  module _ (up : IsUp e.env.calls) (sound : IsMsgQueue e.env.queue) where
    serve-Handled :
        (queue : ℤ) (n fuel : ℕ) (w : World D Q) (s : Process)
        → IsValid w.ids
        → IsSignalled e.os n
        → n ≤ fuel + length s.history
        → After
            (λ w' t. Handled queue s.history w w' t.history)
            (λ _ _. ⊥)
            (serve e queue (suc fuel) w s)
    unfolding serve sistemas_distribuid.Os.Calls.rcvmsg worker
    serve-Handled queue n zero w s valid signalled made =
        if-After _ (λ _ _. ⊥) _ (not (e.os s.history graceful_quit =ℤ pos 0)) _ _
          (λ quit. ([], (e.os s.history graceful_quit, quit, inl refl), refl, valid))
          (λ on. absurd (true≢false (sym (signalled s.history (omega arith)) ∙ on)))
    serve-Handled queue n (suc fuel) w s valid signalled made =
        let a : ℤ = e.os s.history graceful_quit in
        let s1 : Process = log graceful_quit a s in
        let r : ℤ = e.os s1.history (msgrcv queue) in
        let s2 : Process = log (msgrcv queue) r s1 in
        let b : ℤ = e.os s2.history graceful_quit in
        let s3 : Process = log graceful_quit b s2 in
        let msg : Msg = e.received s3.history in
        let (w', eq, valid') = process_msg_total e.env up sound msg w valid in
        if-After _ (λ _ _. ⊥) _ (not (a =ℤ pos 0)) _ _
          (λ quit. ([], (a, quit, inl refl), refl, valid))
          (λ on.
            if-After _ (λ _ _. ⊥) _ (not (b =ℤ pos 0)) _ _
              (λ quit. ([], (b, quit, inr (a, r, on, refl)), refl, valid))
              (λ still. rw eq (
                After-map (λ _ _. ⊥) (serve e queue (suc fuel) w' s3)
                  (λ w'' t (msgs, rounds, done, sound_ids).
                    (msg ∷ msgs, (a, r, b, on, still, refl, rounds), rw eq done, sound_ids))
                  (serve-Handled queue n fuel w' s3 valid' signalled (omega arith)))))

    serve-Calm : (queue : ℤ) (fuel : ℕ) (w : World D Q) → IsCalm (serve e queue fuel w)
    unfolding serve sistemas_distribuid.Os.Calls.rcvmsg
    serve-Calm queue zero w s = tt
    serve-Calm queue (suc fuel) w s =
        let a : ℤ = e.os s.history graceful_quit in
        let s1 : Process = log graceful_quit a s in
        let s2 : Process = log (msgrcv queue) (e.os s1.history (msgrcv queue)) s1 in
        let b : ℤ = e.os s2.history graceful_quit in
        let s3 : Process = log graceful_quit b s2 in
        if-Calm _ (not (a =ℤ pos 0)) _ _ tt (
          if-Calm _ (not (b =ℤ pos 0)) _ _ tt (
            bind-IsCalm (lift (process_msg e.env (e.received s3.history) w)) _
              (lift-IsCalm (process_msg e.env (e.received s3.history) w))
              (λ w'. serve-Calm queue fuel w') s3))

    serve-Ran :
        (queue : ℤ) (n : ℕ) (w : World D Q) (s : Process)
        → IsValid w.ids
        → IsSignalled e.os n
        → Ran queue s.history w (serve e queue (suc n) w s)
    serve-Ran queue n w s valid signalled =
        over (serve e queue (suc n) w s) (serve-Handled queue n n w s valid signalled (omega arith))
          (serve-Calm queue (suc n) w s)
      where
        over :
            (x : Result (World D Q) × Process)
            → After (λ w' t. Handled queue s.history w w' t.history) (λ _ _. ⊥) x
            → Calm x
            → Ran queue s.history w x
        over (ret w', t) h c = (w', refl, h)
        over (exits code, t) h c = elim h [ ]
        over (becomes p, t) h c = elim c [ ]
        over (hangs, t) h c = elim h [ ]
        over (running, t) h c = elim h [ ]

  -- How `main` can be over, beside a run with no round of its loop: it exits in both, that is,
  -- before the loop; or it returns, has handled what the loop has received since that run got to
  -- it, and has then closed a connection as its last call.
  abbrev pub IsOver :
      World D Q → Result (World D Q) × Process → Result (World D Q) × Process → Type 0
  IsOver w x start =
      ((code : ℤ) × (x.0 ≡ exits code) × (start.0 ≡ exits code))
      ⊎ ((w' : World D Q) × (x.0 ≡ ret w')
          × (queue : ℤ) × (h : List Event) × Handled queue start.1.history w w' h
          × (socket : ℤ) × (r : ℤ) × (x.1.history ≡ event (close socket) r ∷ h))

  ends :
      (queue socket : ℤ) (w : World D Q) (s : Process) (x : Result (World D Q) × Process)
      → Ran queue s.history w x
      → IsOver w
          (next x (λ w' t. (ret w', log (close socket) (e.os t.history (close socket)) t)))
          (running, s)
  ends queue socket w s (ret w', t) (w'', eq, h) =
      inr (w'', eq, queue, t.history, h, socket, _, refl)
  ends queue socket w s (exits c, t) (w'', eq, h) = absurd (cc eq)
  ends queue socket w s (becomes p, t) (w'', eq, h) = absurd (cc eq)
  ends queue socket w s (hangs, t) (w'', eq, h) = absurd (cc eq)
  ends queue socket w s (running, t) (w'', eq, h) = absurd (cc eq)

-- Where the table is valid, its semaphore and segment are there, the queue behaves as msgsnd is
-- documented, and the signal arrives before main of the worker has made n calls: n + 1 rounds of
-- its loop are enough, and main exits before its loop, as it does with no round of it, or returns.
-- Then it leaves what the handlers make, one after the other, of exactly the messages that its
-- rounds have received between two looks at a flag that was not set, until it was; its table is
-- valid, and its last call was to close a connection. It never waits at the semaphore of the
-- table.
pub main-IsHandled :
    {D Q V : Type 0} (e : Host D Q V) (n : ℕ) (w : World D Q)
    → IsUp e.env.calls
    → IsMsgQueue e.env.queue
    → IsValid w.ids
    → IsSignalled e.os n
    → IsOver e w (main e (suc n) w fresh) (main e zero w fresh)
unfolding main serve db_connect db_disconnect
main-IsHandled e n w up sound valid signalled =
    next-Both (IsOver e w) (get_worker_queue e.os fresh) _ _ (get_worker_queue-IsBrief e.os fresh)
      (λ c s. inl (c, refl, refl))
      (λ queue s1.
        next-Both (IsOver e w) (get_resp_queue e.os s1) _ _ (get_resp_queue-IsBrief e.os s1)
          (λ c s. inl (c, refl, refl))
          (λ _ s2.
            next-Both (IsOver e w) (lift (global_ids_get e.env.calls) s2) _ _
              (global_ids_get-IsBrief e.env.calls s2) (λ c s. inl (c, refl, refl))
              (λ _ s3.
                next-Both (IsOver e w) (create_client_socket e.os db_port s3) _ _
                  (create_client_socket-IsBrief e.os db_port s3) (λ c s. inl (c, refl, refl))
                  (λ db s4.
                    ends e queue db w s4 (serve e queue (suc n) w s4)
                      (serve-Ran e up sound queue n w s4 valid signalled)))))
