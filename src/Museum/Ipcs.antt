-- ===== src/Museum/Ipcs.antt =====
-- museum/src/include: msg.h, semaphore.h and shm.h, where they make, find and delete queues,
-- semaphores and segments.
use sistemas_distribuid.Base.{ℕ, ℤ, minus_one, is_neg, ◌=ℤ◌, if◌then◌else◌, true, false, ◌≡◌, refl}
use sistemas_distribuid.Os.{
  Os, Call, Process, ftok, msgget, msgctl_rmid, semget, semctl_setval, semctl_rmid, shmget, shmat,
  shmdt, msgrcv, shmctl_rmid, is_fork,
}
use sistemas_distribuid.Os.Proc.{Proc, pure, exit, sys, ◌>>=◌, ◌>>◌}
use sistemas_distribuid.Os.Calm.{IsBrief, if-Brief}
use sistemas_distribuid.Os.Keeps.{Stop, exited, IsStable, Keeps, if-After}

-- The key of a number, and a call with it.
unfoldable pub by_key : Os → ℕ → (ℤ → Call) → Proc ℤ
by_key os id call = do
  clave ← sys os (ftok id)
  if is_neg clave then pure minus_one else sys os (call clave)

unfoldable pub creamsg : Os → ℕ → Proc ℤ
creamsg os id = by_key os id (λ clave. msgget clave true)

unfoldable pub getmsg : Os → ℕ → Proc ℤ
getmsg os id = by_key os id (λ clave. msgget clave false)

unfoldable pub delmsg : Os → ℤ → Proc ℤ
delmsg os id = sys os (msgctl_rmid id)

unfoldable pub creasem : Os → ℕ → Proc ℤ
creasem os identif = by_key os identif (λ clave. semget clave true)

unfoldable pub getsem : Os → ℕ → Proc ℤ
getsem os identif = by_key os identif (λ clave. semget clave false)

unfoldable pub inisem : Os → ℤ → ℕ → Proc ℤ
inisem os semid val = sys os (semctl_setval semid val)

unfoldable pub delsem : Os → ℤ → Proc ℤ
delsem os semid = sys os (semctl_rmid semid)

unfoldable pub creashm : Os → ℕ → Proc ℤ
creashm os id = by_key os id (λ clave. shmget clave true)

unfoldable pub getshm : Os → ℕ → Proc ℤ
getshm os id = by_key os id (λ clave. shmget clave false)

unfoldable pub delshm : Os → ℤ → Proc ℤ
delshm os id = sys os (shmctl_rmid id)

-- `void* map(int id)`, which ends the process if the segment cannot be mapped.
unfoldable pub map : Os → ℤ → Proc (Unit {0})
map os id = do addr ← sys os (shmat id); if addr =ℤ minus_one then exit minus_one else pure tt

-- `int unmap(void* addr)`, for the segment that is mapped there.
unfoldable pub unmap : Os → ℤ → Proc ℤ
unmap os id = sys os (shmdt id)

-- `void rcvmsg(int id, void *msgp, size_t msgsz, long type)`: that it fails is only logged.
unfoldable pub rcvmsg : Os → ℤ → Proc (Unit {0})
rcvmsg os id = do sys os (msgrcv id); pure tt

module _ {P : Process → Type 0} (E : Stop → Process → Type 0) (stable : IsStable P) where
  by_key-Keeps :
      (os : Os) (id : ℕ) (call : ℤ → Call)
      → ((clave : ℤ) → is_fork (call clave) ≡ false)
      → Keeps P E (by_key os id call)
  unfolding by_key
  by_key-Keeps os id call other s h =
      if-After _ E _ (is_neg (os s.history (ftok id))) _ _ (λ _. stable _ _ _ refl h)
        (λ _. stable _ _ _ (other (os s.history (ftok id))) (stable _ _ _ refl h))

  pub creamsg-Keeps : (os : Os) (id : ℕ) → Keeps P E (creamsg os id)
  unfolding creamsg
  creamsg-Keeps os id = by_key-Keeps os id (λ clave. msgget clave true) (λ _. refl)

  pub getmsg-Keeps : (os : Os) (id : ℕ) → Keeps P E (getmsg os id)
  unfolding getmsg
  getmsg-Keeps os id = by_key-Keeps os id (λ clave. msgget clave false) (λ _. refl)

  pub delmsg-Keeps : (os : Os) (id : ℤ) → Keeps P E (delmsg os id)
  unfolding delmsg
  delmsg-Keeps os id s h = stable _ _ _ refl h

  pub creasem-Keeps : (os : Os) (id : ℕ) → Keeps P E (creasem os id)
  unfolding creasem
  creasem-Keeps os id = by_key-Keeps os id (λ clave. semget clave true) (λ _. refl)

  pub getsem-Keeps : (os : Os) (id : ℕ) → Keeps P E (getsem os id)
  unfolding getsem
  getsem-Keeps os id = by_key-Keeps os id (λ clave. semget clave false) (λ _. refl)

  pub inisem-Keeps : (os : Os) (id : ℤ) (val : ℕ) → Keeps P E (inisem os id val)
  unfolding inisem
  inisem-Keeps os id val s h = stable _ _ _ refl h

  pub delsem-Keeps : (os : Os) (id : ℤ) → Keeps P E (delsem os id)
  unfolding delsem
  delsem-Keeps os id s h = stable _ _ _ refl h

  pub creashm-Keeps : (os : Os) (id : ℕ) → Keeps P E (creashm os id)
  unfolding creashm
  creashm-Keeps os id = by_key-Keeps os id (λ clave. shmget clave true) (λ _. refl)

  pub getshm-Keeps : (os : Os) (id : ℕ) → Keeps P E (getshm os id)
  unfolding getshm
  getshm-Keeps os id = by_key-Keeps os id (λ clave. shmget clave false) (λ _. refl)

  pub delshm-Keeps : (os : Os) (id : ℤ) → Keeps P E (delshm os id)
  unfolding delshm
  delshm-Keeps os id s h = stable _ _ _ refl h

  pub map-Keeps : (os : Os) (id : ℤ) → ((s : Process) → P s → E exited s) → Keeps P E (map os id)
  unfolding map
  map-Keeps os id out s h =
      if-After _ E _ (os s.history (shmat id) =ℤ minus_one) _ _ (λ _. out _ (stable _ _ _ refl h))
        (λ _. stable _ _ _ refl h)

-- None of them waits.
by_key-IsBrief : (os : Os) (id : ℕ) (call : ℤ → Call) → IsBrief (by_key os id call)
unfolding by_key
by_key-IsBrief os id call s = if-Brief _ (is_neg (os s.history (ftok id))) _ _ tt tt

pub getmsg-IsBrief : (os : Os) (id : ℕ) → IsBrief (getmsg os id)
unfolding getmsg
getmsg-IsBrief os id = by_key-IsBrief os id (λ clave. msgget clave false)

pub getsem-IsBrief : (os : Os) (id : ℕ) → IsBrief (getsem os id)
unfolding getsem
getsem-IsBrief os id = by_key-IsBrief os id (λ clave. semget clave false)

pub getshm-IsBrief : (os : Os) (id : ℕ) → IsBrief (getshm os id)
unfolding getshm
getshm-IsBrief os id = by_key-IsBrief os id (λ clave. shmget clave false)

pub map-IsBrief : (os : Os) (id : ℤ) → IsBrief (map os id)
unfolding map
map-IsBrief os id s = if-Brief _ (os s.history (shmat id) =ℤ minus_one) _ _ tt tt
