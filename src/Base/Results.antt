-- ===== src/Base/Results.antt =====
-- What holds of the result of a C function, where it comes to one.
use mathlib.Core.Path.{◌≡◌, refl}
use mathlib.Core.Bool.{Bool, true, false}
use Prim.Native.Nat.{ℕ, zero, suc}
use chic_os.Base.Tests.{if◌then◌else◌}
use chic_os.Base.Effects.{Outcome, ok, waits, fault, exits, unfinished, ◌>>=◌, sem_wait}

abbrev Result {ℓ κ} : {A : Type ℓ} → (A → Type κ) → Outcome A → Type κ
Result Q (ok a) = Q a
Result Q waits = Unit
Result Q fault = Unit
Result Q exits = Unit
Result Q unfinished = Unit

pub record Keeps {ℓ κ} {A : Type ℓ} (Q : A → Type κ) (o : Outcome A) : Type κ where
  pub holds : Result Q o

pub then-Keeps {ℓ κ μ ν} :
    {A : Type ℓ} {B : Type κ} {P : A → Type μ} {Q : B → Type ν} (o : Outcome A) (f : A → Outcome B)
    → Keeps P o
    → ((a : A) → P a → Keeps Q (f a))
    → Keeps Q (o >>= f)
then-Keeps (ok a) f h k = k a h.holds
then-Keeps waits f h k = record { holds = tt }
then-Keeps fault f h k = record { holds = tt }
then-Keeps exits f h k = record { holds = tt }
then-Keeps unfinished f h k = record { holds = tt }

-- Where nothing is known of the first result.
pub any-Keeps {ℓ κ ν} :
    {A : Type ℓ} {B : Type κ} {Q : B → Type ν} (o : Outcome A) (f : A → Outcome B)
    → ((a : A) → Keeps Q (f a))
    → Keeps Q (o >>= f)
any-Keeps (ok a) f k = k a
any-Keeps waits f k = record { holds = tt }
any-Keeps fault f k = record { holds = tt }
any-Keeps exits f k = record { holds = tt }
any-Keeps unfinished f k = record { holds = tt }

pub wait-Keeps {κ ν} :
    {B : Type κ} {Q : B → Type ν} (n : ℕ) (f : ℕ → Outcome B)
    → ((k : ℕ) → n ≡ suc k → Keeps Q (f k))
    → Keeps Q (sem_wait n >>= f)
wait-Keeps zero f k = record { holds = tt }
wait-Keeps (suc n) f k = k n refl

pub if_Keeps {κ ν} :
    {B : Type κ} {Q : B → Type ν} (b : Bool) (x y : Outcome B)
    → Keeps Q x
    → Keeps Q y
    → Keeps Q (if b then x else y)
if_Keeps true x y h k = h
if_Keeps false x y h k = k

-- The same for a split by `elim`.
pub split-Keeps {κ ν} :
    {B : Type κ} {Q : B → Type ν} (b : Bool) (x y : Outcome B)
    → Keeps Q x
    → Keeps Q y
    → Keeps Q (elim b [ false ↦ y | true ↦ x ])
split-Keeps true x y h k = h
split-Keeps false x y h k = k

pub ok-Keeps {ℓ κ} : {A : Type ℓ} {Q : A → Type κ} (a : A) → Q a → Keeps Q (ok a)
ok-Keeps a h = record { holds = h }

pub fault-Keeps {ℓ κ} : {A : Type ℓ} {Q : A → Type κ} → Keeps Q fault
fault-Keeps = record { holds = tt }
