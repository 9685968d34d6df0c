-- ===== src/Base/Classes.antt =====
-- Keys that can be compared, as Go's `==` does on strings and integers.
use Prim.Native.Nat.{ℕ}
use Prim.Native.String.{String}
use mathlib.Core.Path.{◌≡◌, refl}
use mathlib.Core.Logic.{◌↔◌}
use mathlib.Core.Bool.{Bool, true}
use text.Mathlib.Text.{◌==◌ as str_eq}
use text.Mathlib.TextEquality.{eq_iff}
use foundryvtt_rest_api_rela.Base.Tests.{eqb, eqb_iff}

pub record Comparable {ℓ} (A : Type ℓ) : Type ℓ where
  pub equals : A → A → Bool
  pub equals_iff : (a b : A) → (equals a b ≡ true) ↔ (a ≡ b)

infix 50 ◌==◌
abbrev pub ◌==◌ {ℓ} : {A : Type ℓ} ⦃e : Comparable A⦄ → A → A → Bool
◌==◌ ⦃e⦄ = e.equals

instance abbrev pub nat_eq : Comparable ℕ
nat_eq = record { equals = eqb; equals_iff = eqb_iff }

instance abbrev pub string_eq : Comparable String
string_eq = record { equals = str_eq; equals_iff = eq_iff }

pub str_iff : (s t : String) → ((s == t) ≡ true) ↔ (s ≡ t)
str_iff = eq_iff

pub beq_self {ℓ} : {A : Type ℓ} ⦃e : Comparable A⦄ (a : A) → (a == a) ≡ true
beq_self ⦃e⦄ a = (e.equals_iff a a).1 refl
