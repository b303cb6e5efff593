-- ===== src/Base/Numbers.antt =====
-- Division and multiplication of natural numbers.
use Prim.Native.Nat.{ℕ, suc, ◌+◌, ◌-◌, ◌*◌, ◌/◌, ◌≤◌, ◌<◌}
use mathlib.Core.Path.{subst}
use mathlib.Core.Logic.{inl, inr}
use native.Mathlib.Omega.{arith}
use gitglasses.Base.Tests.{◌==◌, ==_iff, Bool-cases}

pub div-mul-le : (a b : ℕ) → a / b * b ≤ a
div-mul-le a b = omega arith

pub lt-div-suc : (a b : ℕ) → 0 < b → a < (a / b + 1) * b
lt-div-suc a b h = grind arith

pub mul_mono : (a b c : ℕ) → a ≤ b → a * c ≤ b * c
mul_mono a b c h = grind arith

pub le_of_mul_lt : (a i b : ℕ) → a * b < (i + 1) * b → a ≤ i
le_of_mul_lt a i b h = grind arith

pub div-le : (a i b : ℕ) → a < (i + 1) * b → a / b ≤ i
div-le a i b h = le_of_mul_lt (a / b) i b (omega (arith, div-mul-le a b))

-- `Math.ceil(a / b)`.
abbrev pub ceil_div : ℕ → ℕ → ℕ
ceil_div a b = (a + b - 1) / b

pub lt-ceil_div : (a i b : ℕ) → 0 < b → i * b < a → i < ceil_div a b
lt-ceil_div a i b p h =
    le_of_mul_lt (suc i) (ceil_div a b) b (grind (arith, lt-div-suc (a + b - 1) b))

-- What holds at a number and from the next one on holds from that number on.
pub from_next :
    (P : ℕ → Type 0) (m bound : ℕ)
    → P m
    → ((k : ℕ) → suc m ≤ k → k < bound → P k)
    → (k : ℕ) → m ≤ k
    → k < bound
    → P k
from_next P m bound here later k low high = elim (Bool-cases (m == k)) [
  | inl e ↦ subst P ((==_iff m k).0 e) here
  | inr e ↦ later k (ground arith) high
]
