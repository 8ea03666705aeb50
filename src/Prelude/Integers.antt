-- ===== src/Prelude/Integers.antt =====
-- Python's integers over the native numbers, and equality of integers and of pairs.
use Prim.Native.Nat.{ℕ}
use mathlib.Core.Path.{◌≡◌}
use mathlib.Core.Logic.{◌↔◌}
use mathlib.Core.Bool.{Bool, true, false, ◌&&◌}
use native.Mathlib.Omega.{arith}
use whatfrom.Prelude.Tests.{◌==◌}
use whatfrom.Prelude.Eq.{Eq}

pub data ℤ : Type 0 where
  pos : ℕ → ℤ
  negsuc : ℕ → ℤ

abbrev pub int_beq : ℤ → ℤ → Bool
int_beq (ℤ.pos m) (ℤ.pos n) = m == n
int_beq (ℤ.pos m) (ℤ.negsuc n) = false
int_beq (ℤ.negsuc m) (ℤ.pos n) = false
int_beq (ℤ.negsuc m) (ℤ.negsuc n) = m == n

pub int_beq_iff : (a b : ℤ) → (int_beq a b ≡ true) ↔ (a ≡ b)
int_beq_iff (ℤ.pos m) (ℤ.pos n) = ground arith
int_beq_iff (ℤ.pos m) (ℤ.negsuc n) = ground arith
int_beq_iff (ℤ.negsuc m) (ℤ.pos n) = ground arith
int_beq_iff (ℤ.negsuc m) (ℤ.negsuc n) = ground arith

instance abbrev pub int_eq : Eq ℤ
int_eq = record { beq = int_beq; beq_iff = int_beq_iff }

module _ {ℓ κ} {A : Type ℓ} {B : Type κ} ⦃e : Eq A⦄ ⦃f : Eq B⦄ where
  abbrev pub pair_beq : A × B → A × B → Bool
  pair_beq (a, b) (c, d) = e.beq a c && f.beq b d

  pub pair_beq_iff : (p q : A × B) → (pair_beq p q ≡ true) ↔ (p ≡ q)
  pair_beq_iff (a, b) (c, d) = ground (arith, e.beq_iff a c, f.beq_iff b d)

  instance abbrev pub pair_eq : Eq (A × B)
  pair_eq = record { beq = pair_beq; beq_iff = pair_beq_iff }
