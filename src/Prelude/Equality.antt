-- ===== src/Prelude/Equality.antt =====
-- C++'s `==` on strings and on map keys.
use mathlib.Core.Path.{◌≡◌}
use mathlib.Core.Logic.{ite, ◌≢◌}
use native.Mathlib.Omega.{arith}
use mathlib.Core.Bool.{Bool, true, false}
use mathlib.Core.List.{List}
use native.Mathlib.Decide.{ℕ_discrete}
use Prim.Native.Nat.{ℕ}

pub record Eq {ℓ} (A : Type ℓ) : Type ℓ where
  pub dec : Discrete A

-- `a == b` on strings and keys.
module _ {ℓ} {A : Type ℓ} ⦃e : Eq A⦄ where
  abbrev pub same : A → A → Bool
  same a b = ite (e.dec a b) true false

module _ {ℓ} {A : Type ℓ} ⦃e : Eq A⦄ where
  pub same-false : (a b : A) → a ≢ b → same a b ≡ false
  same-false a b h = ground arith

  pub same_self : (a : A) → same a a ≡ true
  same_self a = ground arith

  pub same→eq : (a b : A) → same a b ≡ true → a ≡ b
  same→eq a b h = ground arith

list_dec {ℓ} : {A : Type ℓ} → Discrete A → Discrete (List A)
list_dec d = hlevel d

instance unfoldable pub nat_eq : Eq ℕ
unfolding ℕ_discrete
nat_eq = record { dec = ℕ_discrete }

instance unfoldable pub bytes_eq : Eq (List ℕ)
unfolding ℕ_discrete list_dec
bytes_eq = record { dec = list_dec ℕ_discrete }
