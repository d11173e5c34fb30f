-- ===== src/Museum/Processes/Run.antt =====
-- museum/src/main.c: a whole run of `main`.
use sistemas_distribuid.Base.{
  ◌⊎◌, inl, inr, ℕ, zero, suc, ◌+◌, ◌*◌, ◌≤◌, ℤ, is_neg, ◌≡◌, refl, subst, [], length, arith,
}
use sistemas_distribuid.Os.{Os, Call, Event, Process, Program, is_fork, fork, log}
use sistemas_distribuid.Os as Os
use sistemas_distribuid.Os.Proc.{Result, ret, exits, becomes, hangs, running, next, fresh}
use sistemas_distribuid.Os.Keeps.{
  OnlyExit, After, next-After, if-After, Keeps, bind-Keeps, if-Keeps,
}
use sistemas_distribuid.Museum.Ipcs.{
  creamsg, creasem, inisem, creashm, creamsg-Keeps, creasem-Keeps, inisem-Keeps, creashm-Keeps,
  map-Keeps,
}
use sistemas_distribuid.Museum.Processes.{
  max_childs, wait_childs, destroy_ipcs, start, create_door, create_sem, create_shm, create_tour,
  create_museum, create_doors, main, entrance_doors, exit_door_req_msg, exit_door_resp_msg,
  tour_req_msg, tour_resp_msg, museum_cap_sem, museum_open_sem, museum_tour_count_sem,
  museum_tour_start_sem, museum_cap_shm, museum_open_shm, museum_tour_count_shm,
}
use sistemas_distribuid.Museum.Processes.Counted.{
  Count, Counts, IsDone, Count-IsStable, IsDone-IsStable, wait_childs-IsDone, give_up, start-Counts,
  forks, waits,
}
use sistemas_distribuid.Museum.Processes.Deletion.{destroy_ipcs-Keeps}

create_door-Counts :
    (n : ℕ) (os : Os) (req resp : ℕ) (program : Program)
    → suc n ≤ max_childs
    → Counts n (suc n) (create_door os req resp program)
unfolding create_door
create_door-Counts n os req resp program more s room h =
    next-After (λ _. Count n 0) (λ _. Count (suc n) 0) (OnlyExit IsDone) (creamsg os req s) _
      (creamsg-Keeps (OnlyExit IsDone) (Count-IsStable n 0) os req s h)
      (λ q t k.
        if-After _ (OnlyExit IsDone) t (is_neg q) _ _ (λ _. give_up n (suc n) os t room k)
          (λ _.
            next-After (λ _. Count n 0) (λ _. Count (suc n) 0) (OnlyExit IsDone) (creamsg os resp t)
              _ (creamsg-Keeps (OnlyExit IsDone) (Count-IsStable n 0) os resp t k)
              (λ q' u l.
                if-After _ (OnlyExit IsDone) u (is_neg q') _ _ (λ _. give_up n (suc n) os u room l)
                  (λ _. start-Counts n os program _ more u room l))))

create_sem-Empties :
    (os : Os) (id val : ℕ) → Keeps (Count 0 0) (OnlyExit IsDone) (create_sem os id val)
unfolding create_sem
create_sem-Empties os id val =
    bind-Keeps (Count 0 0) (OnlyExit IsDone) (creasem os id) _
      (creasem-Keeps (OnlyExit IsDone) (Count-IsStable 0 0) os id)
      (λ q.
        if-Keeps (Count 0 0) (OnlyExit IsDone) (is_neg q) _ _
          (λ s h. give_up 0 0 os s (omega arith) h)
          (bind-Keeps (Count 0 0) (OnlyExit IsDone) (inisem os q val) _
            (inisem-Keeps (OnlyExit IsDone) (Count-IsStable 0 0) os q val) (λ _ _ h. h)))

create_shm-Empties : (os : Os) (id : ℕ) → Keeps (Count 0 0) (OnlyExit IsDone) (create_shm os id)
unfolding create_shm
create_shm-Empties os id =
    bind-Keeps (Count 0 0) (OnlyExit IsDone) (creashm os id) _
      (creashm-Keeps (OnlyExit IsDone) (Count-IsStable 0 0) os id)
      (λ q.
        if-Keeps (Count 0 0) (OnlyExit IsDone) (is_neg q) _ _
          (λ s h. give_up 0 0 os s (omega arith) h)
          (map-Keeps (OnlyExit IsDone) (Count-IsStable 0 0) os q
            (λ s (forked, listed, _). (omega (arith, forked), omega (arith, listed)))))

create_queue-Empties :
    (os : Os) (id : ℕ) (k : ℤ → Process → Result (Unit {0}) × Process)
    → ((q : ℤ) → Keeps (Count 0 0) (OnlyExit IsDone) (k q))
    → Keeps (Count 0 0) (OnlyExit IsDone) (λ s. next (creamsg os id s) k)
create_queue-Empties os id k rest s h =
    next-After (λ _. Count 0 0) (λ _. Count 0 0) (OnlyExit IsDone) (creamsg os id s) k
      (creamsg-Keeps (OnlyExit IsDone) (Count-IsStable 0 0) os id s h) rest

create_tour-Empties : (os : Os) → Keeps (Count 0 0) (OnlyExit IsDone) (create_tour os)
unfolding create_tour
create_tour-Empties os =
    bind-Keeps (Count 0 0) (OnlyExit IsDone) (create_sem os museum_tour_count_sem 1) _
      (create_sem-Empties os museum_tour_count_sem 1)
      (λ _.
        bind-Keeps (Count 0 0) (OnlyExit IsDone) (create_shm os museum_tour_count_shm) _
          (create_shm-Empties os museum_tour_count_shm)
          (λ _.
            bind-Keeps (Count 0 0) (OnlyExit IsDone) (create_sem os museum_tour_start_sem 0) _
              (create_sem-Empties os museum_tour_start_sem 0)
              (λ _. create_queue-Empties os tour_req_msg _ (λ q.
                if-Keeps (Count 0 0) (OnlyExit IsDone) (is_neg q) _ _
                  (λ s h. give_up 0 0 os s (omega arith) h)
                  (create_queue-Empties os tour_resp_msg _ (λ q'.
                    if-Keeps (Count 0 0) (OnlyExit IsDone) (is_neg q') _ _
                      (λ s h. give_up 0 0 os s (omega arith) h) (λ _ h. h)))))))

create_museum-Empties : (os : Os) → Keeps (Count 0 0) (OnlyExit IsDone) (create_museum os)
unfolding create_museum
create_museum-Empties os =
    bind-Keeps (Count 0 0) (OnlyExit IsDone) (create_sem os museum_cap_sem 1) _
      (create_sem-Empties os museum_cap_sem 1)
      (λ _.
        bind-Keeps (Count 0 0) (OnlyExit IsDone) (create_shm os museum_cap_shm) _
          (create_shm-Empties os museum_cap_shm)
          (λ _.
            bind-Keeps (Count 0 0) (OnlyExit IsDone) (create_sem os museum_open_sem 1) _
              (create_sem-Empties os museum_open_sem 1)
              (λ _.
                bind-Keeps (Count 0 0) (OnlyExit IsDone) (create_shm os museum_open_shm) _
                  (create_shm-Empties os museum_open_shm) (λ _. create_tour-Empties os))))

create_doors-Counts :
    (n k : ℕ) (os : Os) (rounds i : ℕ)
    → rounds + n ≡ k
    → k ≤ max_childs
    → Counts n k (create_doors os rounds i)
unfolding create_doors
create_doors-Counts n k os zero i e more s room h = subst (λ m. Count m 0 s) (omega (arith, e)) h
create_doors-Counts n k os (suc rounds) i e more s room h =
    next-After (λ _. Count (suc n) 0) (λ _. Count k 0) (OnlyExit IsDone)
      (create_door os (2 * i) (2 * i + 1) Os.entrance_door s) _
      (create_door-Counts n os (2 * i) (2 * i + 1) Os.entrance_door (omega (arith, e, more)) s room
        h)
      (λ _ t l.
        create_doors-Counts (suc n) k os rounds (suc i) (omega (arith, e)) more t
          (omega (arith, e, more)) l)

main-IsDone : (os : Os) (s : Process) → Count 0 0 s → After (λ _ _. ⊥) (OnlyExit IsDone) (main os s)
unfolding main
main-IsDone os s h =
    next-After (λ _. Count 0 0) (λ _ _. ⊥) (OnlyExit IsDone) (create_museum os s) _
      (create_museum-Empties os s h)
      (λ _ t1 h1.
        next-After (λ _. Count 3 0) (λ _ _. ⊥) (OnlyExit IsDone)
          (create_doors os entrance_doors 0 t1) _
          (create_doors-Counts 0 3 os entrance_doors 0 (omega arith) (omega arith) t1 (omega arith)
            h1)
          (λ _ t2 h2.
            next-After (λ _. Count 4 0) (λ _ _. ⊥) (OnlyExit IsDone)
              (create_door os exit_door_req_msg exit_door_resp_msg Os.exit_door t2) _
              (create_door-Counts 3 os exit_door_req_msg exit_door_resp_msg Os.exit_door
                (omega arith) t2 (omega arith) h2)
              (λ _ t3 h3.
                next-After (λ _. Count 5 0) (λ _ _. ⊥) (OnlyExit IsDone) (start os Os.guide [] t3) _
                  (start-Counts 4 os Os.guide [] (omega arith) t3 (omega arith) h3)
                  (λ _ t4 h4.
                    next-After (λ _. Count 6 0) (λ _ _. ⊥) (OnlyExit IsDone)
                      (start os Os.person_gen [] t4) _
                      (start-Counts 5 os Os.person_gen [] (omega arith) t4 (omega arith) h4)
                      (λ _ t5 h5.
                        next-After (λ _. IsDone) (λ _ _. ⊥) (OnlyExit IsDone) (wait_childs os t5) _
                          (wait_childs-IsDone (OnlyExit IsDone) 6 os t5 (omega arith) h5)
                          (λ _ t6 h6.
                            next-After (λ _. IsDone) (λ _ _. ⊥) (OnlyExit IsDone)
                              (destroy_ipcs os t6) _
                              (destroy_ipcs-Keeps (OnlyExit IsDone) IsDone-IsStable os t6 h6)
                              (λ _ _ h7. h7)))))))

-- However the kernel answers, main of the museum exits, or its child becomes another program;
-- where it exits it has waited at least as many times as it has forked children, and its children
-- have all had room in the array.
pub main-waits :
    (os : Os)
    → ((program : Program) × ((main os fresh).0 ≡ becomes program))
      ⊎ ((code : ℤ) × ((main os fresh).0 ≡ exits code)
          × (forks (main os fresh).1.history ≤ waits (main os fresh).1.history)
          × (length (main os fresh).1.childs ≤ max_childs))
main-waits os = over (main os fresh) (main-IsDone os fresh (omega arith, omega arith, omega arith))
  where
    over :
        (x : Result (Unit {0}) × Process)
        → After (λ _ _. ⊥) (OnlyExit IsDone) x
        → ((program : Program) × (x.0 ≡ becomes program))
          ⊎ ((code : ℤ) × (x.0 ≡ exits code)
              × (forks x.1.history ≤ waits x.1.history)
              × (length x.1.childs ≤ max_childs))
    over (ret a, s) h = elim h [ ]
    over (exits code, s) (waited, room) = inr (code, refl, waited, room)
    over (becomes program, s) h = inl (program, refl)
    over (hangs, s) h = elim h [ ]
    over (running, s) h = elim h [ ]
