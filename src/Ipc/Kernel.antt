-- ===== src/Ipc/Kernel.antt =====
-- broker/common/ipc: semaphore.c and shm.c. A semaphore is its value. What the kernel answers to
-- the calls of one operation is an argument: the answers of `ftok`, `semget` and `shmget`, and
-- whether the others succeed.
use sistemas_distribuid.Base.{
  ℕ, zero, suc, ℤ, is_neg, minus_one, Bool, true, false, if◌then◌else◌, Outcome, ret, blocked,
  exits, ◌≡◌, refl, ◌⊎◌, inl, inr,
}

pub record Calls : Type 0 where
  pub ftok : ℤ
  pub semget : ℤ
  pub shmget : ℤ
  pub semctl : ℤ
  pub shmctl : ℤ
  pub semop_ok : Bool
  pub shmat_ok : Bool

-- `int getsem(int identif)`
unfoldable pub getsem : Calls → ℤ
getsem k = if is_neg k.ftok then minus_one else k.semget

-- `int creasem(int identif)`: the same calls, with the flags that make `semget` fail if it exists.
unfoldable pub creasem : Calls → ℤ
creasem k = if is_neg k.ftok then minus_one else k.semget

-- `int inisem(int semid, int val)`, with the value after it.
unfoldable pub inisem : Calls → ℕ → ℕ → ℤ
inisem k val value = k.semctl

-- `int creashm(int id, int size)`
unfoldable pub creashm : Calls → ℤ
creashm k = if is_neg k.ftok then minus_one else k.shmget

-- `int getshm(int id)`
unfoldable pub getshm : Calls → ℤ
getshm k = if is_neg k.ftok then minus_one else k.shmget

-- `int delsem(int semid)`
unfoldable pub delsem : Calls → ℤ
delsem k = k.semctl

-- `int delshm(int id)`
unfoldable pub delshm : Calls → ℤ
delshm k = k.shmctl

-- `void* shm_map(int id)`, which ends the process if the segment cannot be mapped.
unfoldable pub shm_map : Calls → Outcome (Unit {0})
shm_map k = if k.shmat_ok then ret tt else exits minus_one

-- `semop` with -1 waits while the value is 0.
lower : ℕ → Outcome ℕ
lower zero = blocked
lower (suc n) = ret n

-- `int p(int semid)`: the value after it.
unfoldable pub p : Calls → ℕ → Outcome ℕ
unfolding lower
p k value = if k.semop_ok then lower value else exits minus_one

-- `int v(int semid)`: the value after it.
unfoldable pub v : Calls → ℕ → Outcome ℕ
v k value = if k.semop_ok then ret (suc value) else exits minus_one

-- The semaphore and the segment exist and their calls succeed.
pub record IsUp (k : Calls) : Type 0 where
  pub sem_found : is_neg (getsem k) ≡ false
  pub mapped : k.shmat_ok ≡ true
  pub operated : k.semop_ok ≡ true

pub p-up : {k : Calls} (n : ℕ) → IsUp k → p k (suc n) ≡ ret n
unfolding p
p-up n up = rw up.operated refl

pub v-up : {k : Calls} (n : ℕ) → IsUp k → v k n ≡ ret (suc n)
unfolding v
v-up n up = rw up.operated refl

pub p-zero : {k : Calls} → IsUp k → p k 0 ≡ blocked
unfolding p
p-zero up = rw up.operated refl

pub p-cases : {k : Calls} (n : ℕ) → IsUp k → (p k n ≡ blocked) ⊎ ((m : ℕ) × (p k n ≡ ret m))
p-cases zero up = inl (p-zero up)
p-cases (suc n) up = inr (n, p-up n up)
