-- ===== src/Base/Equality.antt =====
-- The `==` that a Python dict asks of its keys, as an interface with an instance for each key type.
use Prim.Native.Nat.{ℕ}
use Prim.Native.String.{String}
use mathlib.Core.Path.{◌≡◌, refl}
use mathlib.Core.Logic.{◌↔◌}
use mathlib.Core.Bool.{Bool, true, ◌&&◌}
use native.Mathlib.Omega.{arith}
use text.Mathlib.Text.{◌==◌ as str_eq}
use text.Mathlib.TextEquality.{eq_iff}
use hackathon_nu.Base.Tests.{nat_beq, nat_beq_iff}

-- `equals` decides the identity of keys.
pub record Eq {ℓ} (Value : Type ℓ) : Type ℓ where
  pub equals : Value → Value → Bool
  pub equals_iff : (x y : Value) → (equals x y ≡ true) ↔ (x ≡ y)

module _ {ℓ} {Value : Type ℓ} ⦃keys : Eq Value⦄ where
  infix 50 ◌==◌
  abbrev pub ◌==◌ : Value → Value → Bool
  x == y = keys.equals x y

  pub ==_refl : (x : Value) → (x == x) ≡ true
  ==_refl x = (keys.equals_iff x x).1 refl

instance abbrev pub string_eq : Eq String
string_eq = record { equals = str_eq; equals_iff = eq_iff }

instance abbrev pub nat_eq : Eq ℕ
nat_eq = record { equals = nat_beq; equals_iff = nat_beq_iff }

module _ {ℓ κ} {A : Type ℓ} {B : Type κ} ⦃a : Eq A⦄ ⦃b : Eq B⦄ where
  abbrev pub pair_beq : A × B → A × B → Bool
  pair_beq (x, y) (u, v) = a.equals x u && b.equals y v

  pub pair_beq_iff : (p q : A × B) → (pair_beq p q ≡ true) ↔ (p ≡ q)
  pair_beq_iff (x, y) (u, v) = ground (arith, a.equals_iff x u, b.equals_iff y v)

  instance abbrev pub pair_eq : Eq (A × B)
  pair_eq = record { equals = pair_beq; equals_iff = pair_beq_iff }
