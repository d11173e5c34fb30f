-- ===== src/Server/Processes/Ending.antt =====
-- broker/server/server.c: `safe_exit` and the calls in it.
use mathlib.Core.List.{Memᴰ}
use sistemas_distribuid.Base.{suc, sym, ℕ, ℤ, pos, is_neg, refl, subst, inl, inr, List, [], ◌∷◌}
use sistemas_distribuid.Os.{Os, Process, kill, log}
use sistemas_distribuid.Os as Os
use sistemas_distribuid.Os.Proc.{lift}
use sistemas_distribuid.Os.Calls.{getmsg, delmsg}
use sistemas_distribuid.Os.Keeps.{
  Stop, AtExit, And, And-IsStable, After, After-map, next-After, if-After, IsStable, Keeps,
  bind-Keeps, if-Keeps, lift-Keeps, getmsg-Keeps, delmsg-Keeps,
}
use sistemas_distribuid.Os.Children.{
  IsStopped, AllStopped, AllOn, IsStopped-IsStable, AllStopped-IsStable, AllOn-IsStable,
}
use sistemas_distribuid.Server.GlobalId.{global_ids_get}
use sistemas_distribuid.Server.Processes.{
  Env, destroy_queue, destroy_queues, destroy_global_ids, kill_child, kill_each, kill_childs,
  safe_exit, worker_queue, resp_queue, ring_connection_setup_queue,
}

module _ {P : Process → Type 0} (E : Stop → Process → Type 0) (stable : IsStable P) where
  destroy_queue-Keeps : (os : Os) (id : ℕ) → Keeps P E (destroy_queue os id)
  unfolding destroy_queue
  destroy_queue-Keeps os id =
      bind-Keeps P E (getmsg os id) _ (getmsg-Keeps E stable os id) (λ queue.
        if-Keeps P E (is_neg queue) _ _ (λ _ h. h)
          (bind-Keeps P E (delmsg os queue) _ (delmsg-Keeps E stable os queue) (λ _ _ h. h)))

  pub destroy_queues-Keeps : (e : Env) → Keeps P E (destroy_queues e)
  unfolding destroy_queues
  destroy_queues-Keeps e =
      bind-Keeps P E (destroy_queue e.os worker_queue) _ (destroy_queue-Keeps e.os _) (λ _.
        bind-Keeps P E (destroy_queue e.os resp_queue) _ (destroy_queue-Keeps e.os _)
          (λ _. destroy_queue-Keeps e.os ring_connection_setup_queue))

module _ {P : Process → Type 0} (stable : IsStable P) where
  destroy_global_ids-Keeps : (e : Env) → Keeps P (AtExit P) (destroy_global_ids e)
  unfolding destroy_global_ids
  destroy_global_ids-Keeps e =
      bind-Keeps P (AtExit P) (lift (global_ids_get e.table)) _
        (lift-Keeps P (global_ids_get e.table))
        (λ id.
          if-Keeps P (AtExit P) (is_neg id) _ _ (λ _ h. h)
            (λ s h. stable s Os.global_ids_destroy _ refl h))

abbrev EachStopped : List ℤ → Process → Type 0
EachStopped childs s = (pid : ℤ) → Memᴰ pid childs → IsStopped pid s

EachStopped-cons :
    (pid : ℤ) (childs : List ℤ) (s : Process)
    → IsStopped pid s
    → EachStopped childs s
    → EachStopped (pid ∷ childs) s
EachStopped-cons pid childs s h k pid' (Memᴰ.head e) = subst (λ p. IsStopped p s) (sym e) h
EachStopped-cons pid childs s h k pid' (Memᴰ.tail m) = k pid' m

-- `kill_child` does not end the process.
kill_child-returns :
    {P : Process → Type 0} (E : Stop → Process → Type 0) (os : Os) (pid : ℤ) (s : Process)
    → IsStable P
    → P s
    → After (λ _. And P (IsStopped pid)) E (kill_child os pid s)
unfolding kill_child
kill_child-returns E os pid s stable h =
    let r : ℤ = os s.history (kill pid) in
    if-After _ E _ (is_neg r) _ _
      (λ refused. (stable _ _ _ refl h, (r, Memᴰ.head refl, inl refused)))
      (λ _. (
        stable _ _ _ refl (stable _ _ _ refl h),
        (r, Memᴰ.tail (Memᴰ.head refl), inr (_, Memᴰ.head refl)),
      ))

pub kill_each-EachStopped :
    {P : Process → Type 0} (E : Stop → Process → Type 0) (os : Os) (childs : List ℤ) (s : Process)
    → IsStable P
    → P s
    → After (λ _. And P (EachStopped childs)) E (kill_each os childs s)
unfolding kill_each
kill_each-EachStopped E os [] s stable h = (h, λ pid m. elim m [ ])
kill_each-EachStopped {P = P} E os (child ∷ childs) s stable h =
    next-After (λ _. And P (IsStopped child)) (λ _. And P (EachStopped (child ∷ childs))) E
      (kill_child os child s) _ (kill_child-returns E os child s stable h)
      (λ _ t k.
        After-map E (kill_each os childs t)
          (λ _ u (l, m). (l.0, EachStopped-cons child childs u l.1 m))
          (kill_each-EachStopped E os childs t (And-IsStable stable (IsStopped-IsStable child)) k))

-- After `safe_exit` every child on the list has been stopped, and nothing was forked.
pub safe_exit-AllStopped :
    {A : Type 0} (Q : A → Process → Type 0) (e : Env) (socket error : ℤ) (s : Process)
    → AllOn s.childs s
    → After Q (AtExit AllStopped) (safe_exit e socket error s)
unfolding safe_exit kill_childs
safe_exit-AllStopped Q e socket error s h =
    next-After (λ _. AllStopped) Q (AtExit AllStopped) (kill_each e.os s.childs s) _
      (After-map (AtExit AllStopped) (kill_each e.os s.childs s)
        (λ _ t (on, each) n forked. each (pos (suc n)) (on n forked))
        (kill_each-EachStopped (AtExit AllStopped) e.os s.childs s (AllOn-IsStable s.childs) h))
      (λ _ t k.
        next-After (λ _. AllStopped) Q (AtExit AllStopped) (destroy_queues e _) _
          (destroy_queues-Keeps (AtExit AllStopped) AllStopped-IsStable e _ k)
          (λ _ u l.
            next-After (λ _. AllStopped) Q (AtExit AllStopped) (destroy_global_ids e _) _
              (destroy_global_ids-Keeps AllStopped-IsStable e u l)
              (λ _ v m. AllStopped-IsStable v _ _ refl m)))
