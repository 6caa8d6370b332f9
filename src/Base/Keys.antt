-- ===== src/Base/Keys.antt =====
-- Equality of keys and identifiers as an interface: a test and what it decides.
use mathlib.Core.Path.{◌≡◌, refl}
use mathlib.Core.Logic.{◌↔◌}
use mathlib.Core.Bool.{Bool, true, false}
use mathlib.Core.Option.{Option, none, some}
use Prim.Native.Nat.{ℕ}
use Prim.Native.String.{String}
use native.Mathlib.Omega.{arith}
use text.Mathlib.Text.{◌==◌ as str_eq}
use text.Mathlib.TextEquality.{eq_iff}
use c3qo.Base.Tests.{◌==◌, ==_iff}
use c3qo.Base.Int.{ℤ, eq_ℤ, eq_ℤ_iff}

pub record Eq {ℓ} (A : Type ℓ) : Type ℓ where
  pub beq : A → A → Bool
  pub beq_iff : (a b : A) → (beq a b ≡ true) ↔ (a ≡ b)

instance abbrev pub int_eq : Eq ℤ
int_eq = record { beq = eq_ℤ; beq_iff = eq_ℤ_iff }

instance abbrev pub string_eq : Eq String
string_eq = record { beq = str_eq; beq_iff = eq_iff }

-- A pointer: `none` is `nullptr`.
abbrev pub Ptr : Type 0
Ptr = Option ℕ

abbrev pub eq_ptr : Ptr → Ptr → Bool
eq_ptr none none = true
eq_ptr none (some q) = false
eq_ptr (some p) none = false
eq_ptr (some p) (some q) = p == q

pub eq_ptr_iff : (p q : Ptr) → (eq_ptr p q ≡ true) ↔ (p ≡ q)
eq_ptr_iff none none = (λ _. refl, λ _. refl)
eq_ptr_iff none (some q) = (λ h. cc, λ h. cc)
eq_ptr_iff (some p) none = (λ h. cc, λ h. cc)
eq_ptr_iff (some p) (some q) = ground (arith, ==_iff p q)
