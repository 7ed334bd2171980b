-- ===== src/Base/Faults.antt =====
-- How a run of the program ends other than by a result, and signed results of system calls.
use Prim.Native.Nat.{ℕ}
use mathlib.Core.Path.{◌≡◌, refl}
use mathlib.Core.Bool.{Bool, true, false}

-- `out_of_range` is the exception of `unordered_map::at`, `division_by_zero` the trap of `%`,
-- `null_pointer`, `out_of_bounds` and `dangling` the use of a null pointer, of memory past a buffer and
-- of memory that is not allocated or was deleted, `exits` a call of `exit`, and `out_of_fuel` a loop
-- that does not end within its fuel, and `stack_overflow` an array that the stack has no room for.
pub data Fault : Type 0 where
  out_of_range division_by_zero out_of_fuel null_pointer out_of_bounds dangling stack_overflow :
      Fault
  exits : ℕ → Fault

-- The `int` that a system call or a method returns: `negsuc n` is -(n + 1).
pub data ℤ : Type 0 where
  pos : ℕ → ℤ
  negsuc : ℕ → ℤ

abbrev pub is_negative : ℤ → Bool
is_negative (pos n) = false
is_negative (negsuc n) = true

pub data Result {ℓ} (T : Type ℓ) : Type ℓ where
  fault : Fault → Result T
  ok : T → Result T

-- A run that ends in a fault does not go on.
infixl 5 ◌>>=◌
abbrev pub ◌>>=◌ {ℓ₁ ℓ₂} : {T : Type ℓ₁} {U : Type ℓ₂} → Result T → (T → Result U) → Result U
fault e >>= next = fault e
ok t >>= next = next t

-- Without the result of the first run.
infixl 5 ◌>>◌
abbrev pub ◌>>◌ {ℓ₁ ℓ₂} : {T : Type ℓ₁} {U : Type ℓ₂} → Result T → Result U → Result U
first >> second = first >>= λ t. second

pub bind_assoc {ℓ κ μ} :
    {A : Type ℓ} {B : Type κ} {C : Type μ} (m : Result A) (f : A → Result B) (g : B → Result C)
    → ((m >>= f) >>= g) ≡ (m >>= λ a. f a >>= g)
bind_assoc (ok a) f g = refl
bind_assoc (fault e) f g = refl

pub >>=-eq-ok {ℓ₁ ℓ₂} :
    {T : Type ℓ₁} {U : Type ℓ₂} (m : Result T) (next : T → Result U) {u : U}
    → (m >>= next) ≡ ok u
    → (t : T) × (m ≡ ok t) × (next t ≡ ok u)
>>=-eq-ok (fault e) next run = cc
>>=-eq-ok (ok t) next run = (t, refl, run)
