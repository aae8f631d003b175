-- ===== src/Base/Effects.antt =====
-- What running a C function on one thread comes to.
use Prim.Native.Nat.{ℕ, zero, suc}
use mathlib.Core.Path.{◌≡◌}
use mathlib.Core.Option.{Option, none, some}

-- `waits`: a `sem_wait` on a semaphore at 0, where the thread stops until another one posts.
-- `fault`: a null pointer or an array index out of bounds is used, which C leaves undefined.
-- `exits`: the program ends, by the `exit(1)` of `c_crit_error` or the `exit(-1)` after its help.
-- `unfinished`: a loop is still running when the rounds that the model gives it are used up.
pub data Outcome {ℓ} (A : Type ℓ) : Type ℓ where
  ok : A → Outcome A
  waits fault exits unfinished : Outcome A

infixl 5 ◌>>=◌
abbrev pub ◌>>=◌ {ℓ κ} : {A : Type ℓ} {B : Type κ} → Outcome A → (A → Outcome B) → Outcome B
ok a >>= f = f a
waits >>= f = waits
fault >>= f = fault
exits >>= f = exits
unfinished >>= f = unfinished

-- A pointer or an array cell that is used: it has to be there.
abbrev pub deref {ℓ} : {A : Type ℓ} → Option A → Outcome A
deref none = fault
deref (some a) = ok a

-- `sem_wait` and `sem_post` on a `sem_t`, which is its count.
abbrev pub sem_wait : ℕ → Outcome ℕ
sem_wait zero = waits
sem_wait (suc n) = ok n

abbrev pub sem_post : ℕ → ℕ
sem_post n = suc n

pub ok-injective {ℓ} : {A : Type ℓ} {a b : A} → ok a ≡ ok b → a ≡ b
ok-injective e = cc

pub ok-ne-exits {ℓ} : {A : Type ℓ} {a : A} → ok a ≡ exits → ⊥
ok-ne-exits e = cc
