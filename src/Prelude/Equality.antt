-- ===== src/Prelude/Equality.antt =====
-- Python's `==` as an interface: a test with its law, at numbers, texts and optional values.
use Prim.Native.Nat.{ℕ}
use Prim.Native.String.{String}
use text.Mathlib.Text.{◌==◌ as str_eq}
use text.Mathlib.TextEquality.{eq_iff}
use mathlib.Core.Path.{◌≡◌, refl}
use mathlib.Core.Logic.{◌↔◌}
use mathlib.Core.Bool.{Bool, true, false, ◌&&◌}
use mathlib.Core.Option.{Option, none, some}
use mathlib.Core.List.{List, [], ◌∷◌}
use native.Mathlib.Omega.{arith}
use uumi.Prelude.Tests.{eqb, eqb_iff}

pub record PyEq {ℓ} (A : Type ℓ) : Type ℓ where
  pub equals : A → A → Bool
  pub equals_iff : (a b : A) → (equals a b ≡ true) ↔ (a ≡ b)

infix 50 ◌==◌
abbrev pub ◌==◌ {ℓ} : {A : Type ℓ} ⦃e : PyEq A⦄ → A → A → Bool
◌==◌ ⦃e⦄ = e.equals

instance abbrev pub nat_eq : PyEq ℕ
nat_eq = record { equals = eqb; equals_iff = eqb_iff }

instance abbrev pub string_eq : PyEq String
string_eq = record { equals = str_eq; equals_iff = eq_iff }

module _ {ℓ} {A : Type ℓ} ⦃e : PyEq A⦄ where
  abbrev pub option_beq : Option A → Option A → Bool
  option_beq none none = true
  option_beq (some a) (some b) = e.equals a b
  option_beq _ _ = false

  pub option_beq_iff : (a b : Option A) → (option_beq a b ≡ true) ↔ (a ≡ b)
  option_beq_iff none none = (λ _. refl, λ _. refl)
  option_beq_iff (some a) (some b) = ground (arith, e.equals_iff a b)
  option_beq_iff none (some b) = (λ h. cc, λ h. cc)
  option_beq_iff (some a) none = (λ h. cc, λ h. cc)

  abbrev pub list_beq : List A → List A → Bool
  list_beq [] [] = true
  list_beq (x ∷ xs) (y ∷ ys) = e.equals x y && list_beq xs ys
  list_beq _ _ = false

  pub list_beq_iff : (a b : List A) → (list_beq a b ≡ true) ↔ (a ≡ b)
  list_beq_iff [] [] = (λ _. refl, λ _. refl)
  list_beq_iff (x ∷ xs) (y ∷ ys) = ground (arith, e.equals_iff x y, list_beq_iff xs ys)
  list_beq_iff [] (y ∷ ys) = (λ h. cc, λ h. cc)
  list_beq_iff (x ∷ xs) [] = (λ h. cc, λ h. cc)

instance abbrev pub option_eq {ℓ} : {A : Type ℓ} ⦃e : PyEq A⦄ → PyEq (Option A)
option_eq = record { equals = option_beq; equals_iff = option_beq_iff }

instance abbrev pub list_eq {ℓ} : {A : Type ℓ} ⦃e : PyEq A⦄ → PyEq (List A)
list_eq = record { equals = list_beq; equals_iff = list_beq_iff }
