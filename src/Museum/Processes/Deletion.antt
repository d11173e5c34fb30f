-- ===== src/Museum/Processes/Deletion.antt =====
-- museum/src/main.c: what the deletion of queues, semaphores and segments leaves as it is.
use sistemas_distribuid.Base.{ℕ, zero, suc, ◌+◌, ◌*◌, is_neg}
use sistemas_distribuid.Os.{Os, Process}
use sistemas_distribuid.Os.Keeps.{Stop, IsStable, Keeps, bind-Keeps, if-Keeps}
use sistemas_distribuid.Museum.Ipcs.{
  getmsg, delmsg, getsem, delsem, getshm, delshm, getmsg-Keeps, delmsg-Keeps, getsem-Keeps,
  delsem-Keeps, getshm-Keeps, delshm-Keeps,
}
use sistemas_distribuid.Museum.Processes.{
  delete_msg_queue, delete_shm, delete_sem, destroy_doors, destroy_ipcs, entrance_doors,
  exit_door_req_msg, exit_door_resp_msg, tour_req_msg, tour_resp_msg, museum_cap_sem,
  museum_open_sem, museum_tour_count_sem, museum_tour_start_sem, museum_cap_shm, museum_open_shm,
  museum_tour_count_shm,
}

module _ {P : Process → Type 0} (E : Stop → Process → Type 0) (stable : IsStable P) where
  delete_msg_queue-Keeps : (os : Os) (id : ℕ) → Keeps P E (delete_msg_queue os id)
  unfolding delete_msg_queue
  delete_msg_queue-Keeps os id = bind-Keeps P E (getmsg os id) _ (getmsg-Keeps E stable os id) (λ q.
      if-Keeps P E (is_neg q) _ _ (λ _ h. h)
        (bind-Keeps P E (delmsg os q) _ (delmsg-Keeps E stable os q) (λ _ _ h. h)))

  delete_shm-Keeps : (os : Os) (id : ℕ) → Keeps P E (delete_shm os id)
  unfolding delete_shm
  delete_shm-Keeps os id = bind-Keeps P E (getshm os id) _ (getshm-Keeps E stable os id) (λ q.
      if-Keeps P E (is_neg q) _ _ (λ _ h. h)
        (bind-Keeps P E (delshm os q) _ (delshm-Keeps E stable os q) (λ _ _ h. h)))

  delete_sem-Keeps : (os : Os) (id : ℕ) → Keeps P E (delete_sem os id)
  unfolding delete_sem
  delete_sem-Keeps os id = bind-Keeps P E (getsem os id) _ (getsem-Keeps E stable os id) (λ q.
      if-Keeps P E (is_neg q) _ _ (λ _ h. h)
        (bind-Keeps P E (delsem os q) _ (delsem-Keeps E stable os q) (λ _ _ h. h)))

  destroy_doors-Keeps : (os : Os) (rounds i : ℕ) → Keeps P E (destroy_doors os rounds i)
  unfolding destroy_doors
  destroy_doors-Keeps os zero i = λ _ h. h
  destroy_doors-Keeps os (suc rounds) i =
      bind-Keeps P E (delete_msg_queue os (2 * i)) _ (delete_msg_queue-Keeps os (2 * i)) (λ _.
        bind-Keeps P E (delete_msg_queue os (2 * i + 1)) _ (delete_msg_queue-Keeps os (2 * i + 1))
          (λ _. destroy_doors-Keeps os rounds (suc i)))

  pub destroy_ipcs-Keeps : (os : Os) → Keeps P E (destroy_ipcs os)
  unfolding destroy_ipcs
  destroy_ipcs-Keeps os =
      bind-Keeps P E (destroy_doors os entrance_doors 0) _ (destroy_doors-Keeps os entrance_doors 0)
        (λ _.
          bind-Keeps P E (delete_msg_queue os exit_door_req_msg) _
            (delete_msg_queue-Keeps os exit_door_req_msg)
            (λ _.
              bind-Keeps P E (delete_msg_queue os exit_door_resp_msg) _
                (delete_msg_queue-Keeps os exit_door_resp_msg)
                (λ _.
                  bind-Keeps P E (delete_msg_queue os tour_req_msg) _
                    (delete_msg_queue-Keeps os tour_req_msg)
                    (λ _.
                      bind-Keeps P E (delete_msg_queue os tour_resp_msg) _
                        (delete_msg_queue-Keeps os tour_resp_msg)
                        (λ _.
                          bind-Keeps P E (delete_sem os museum_cap_sem) _
                            (delete_sem-Keeps os museum_cap_sem)
                            (λ _.
                              bind-Keeps P E (delete_shm os museum_cap_shm) _
                                (delete_shm-Keeps os museum_cap_shm)
                                (λ _.
                                  bind-Keeps P E (delete_sem os museum_open_sem) _
                                    (delete_sem-Keeps os museum_open_sem)
                                    (λ _.
                                      bind-Keeps P E (delete_shm os museum_open_shm) _
                                        (delete_shm-Keeps os museum_open_shm)
                                        (λ _.
                                          bind-Keeps P E (delete_sem os museum_tour_count_sem) _
                                            (delete_sem-Keeps os museum_tour_count_sem)
                                            (λ _.
                                              bind-Keeps P E (delete_shm os museum_tour_count_shm) _
                                                (delete_shm-Keeps os museum_tour_count_shm)
                                                (λ _.
                                                  delete_sem-Keeps os
                                                    museum_tour_start_sem)))))))))))
