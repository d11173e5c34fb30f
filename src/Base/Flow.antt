-- ===== src/Base/Flow.antt =====
-- What a call of a C function can come to: it returns, it waits for ever on a semaphore that
-- nobody will raise, or it ends the process.
use sistemas_distribuid.Base.Int.{ℤ}

pub data Outcome {ℓ} (A : Type ℓ) : Type ℓ where
  ret : A → Outcome A
  blocked : Outcome A
  exits : ℤ → Outcome A

-- `abbrev`, so that `ret a >>= f` computes wherever it stands.
infixl 5 ◌>>=◌ ◌>>◌
abbrev pub ◌>>=◌ {ℓ κ} : {A : Type ℓ} {B : Type κ} → Outcome A → (A → Outcome B) → Outcome B
ret a >>= f = f a
blocked >>= f = blocked
exits c >>= f = exits c

abbrev pub ◌>>◌ {ℓ} : {B : Type ℓ} → Outcome (Unit {0}) → Outcome B → Outcome B
m >> k = m >>= λ _. k
