-- ===== src/Shared/Keys.antt =====
-- Comparable keys: a Boolean test that decides equality, for Go's `==` on strings and integers.
use Prim.Native.Nat.{ℕ}
use Prim.Native.String.{String}
use mathlib.Core.Path.{◌≡◌, refl}
use mathlib.Core.Logic.{◌↔◌}
use mathlib.Core.Bool.{Bool, true}
use native.Mathlib.Omega.{arith}
use text.Mathlib.Text.{◌==◌ as str_eq}
use text.Mathlib.TextEquality.{eq_iff}
use eventsourcing.Shared.Tests.{nat_beq}

-- A key type with Go's `==`, which `equal_iff` ties to equality.
pub record Comparable {ℓ} (K : Type ℓ) : Type ℓ where
  pub equal : (k j : K) → Bool
  pub equal_iff : (k j : K) → (k ≡ j) ↔ (equal k j ≡ true)

infix 50 ◌==◌
-- Go's `==`
abbrev pub ◌==◌ {ℓ} : {K : Type ℓ} ⦃key : Comparable K⦄ (k j : K) → Bool
◌==◌ ⦃key⦄ k j = key.equal k j

pub nat_equal_iff : (a b : ℕ) → (a ≡ b) ↔ (nat_beq a b ≡ true)
nat_equal_iff a b = ground arith

pub string_equal_iff : (s t : String) → (s ≡ t) ↔ (str_eq s t ≡ true)
string_equal_iff s t = ((eq_iff s t).1, (eq_iff s t).0)

instance abbrev pub nat_eq : Comparable ℕ
nat_eq = record { equal_iff = nat_equal_iff; equal = nat_beq }

instance abbrev pub string_eq : Comparable String
string_eq = record { equal_iff = string_equal_iff; equal = str_eq }

pub beq_refl {ℓ} : {K : Type ℓ} ⦃key : Comparable K⦄ (k : K) → (k == k) ≡ true
beq_refl ⦃key⦄ k = (key.equal_iff k k).0 refl
