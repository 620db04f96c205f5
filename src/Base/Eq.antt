-- ===== src/Base/Eq.antt =====
-- Types with an equality test: Go's `==` and `reflect.DeepEqual`.
use natsx.Base.Logic.{◌==◌ as nat_eq, ==_iff}
use natsx.Base.Numbers.{ℤ, int_eq, int_eq_iff}
use natsx.Base.Maps.{text_eq, text_eq_iff}
use Prim.Native.Nat.{ℕ}
use mathlib.Core.Bool.{Bool, true, false, ◌&&◌, not}
use mathlib.Core.List.{List, [], ◌∷◌}
use mathlib.Core.Logic.{◌↔◌}
use mathlib.Core.Option.{Option, none, some}
use mathlib.Core.Path.{◌≡◌}
use native.Mathlib.Omega.{arith}

pub record Eq {ℓ} (A : Type ℓ) : Type ℓ where
  pub beq : A → A → Bool
  pub beq_iff : (a b : A) → (beq a b ≡ true) ↔ (a ≡ b)

unfoldable pub bool_eq : Bool → Bool → Bool
bool_eq true b = b
bool_eq false b = not b

pub bool_eq_iff : (a b : Bool) → (bool_eq a b ≡ true) ↔ (a ≡ b)
unfolding bool_eq
bool_eq_iff a b = ground arith

module _ {ℓ} {A : Type ℓ} (e : Eq A) where
  pub option_beq : Option A → Option A → Bool
  option_beq none none = true
  option_beq none (some b) = false
  option_beq (some a) none = false
  option_beq (some a) (some b) = e.beq a b

  pub option_beq_iff : (a b : Option A) → (option_beq a b ≡ true) ↔ (a ≡ b)
  unfolding option_beq
  option_beq_iff none none = ground arith
  option_beq_iff none (some b) = ground arith
  option_beq_iff (some a) none = ground arith
  option_beq_iff (some a) (some b) = ground (arith, e.beq_iff a b)

  pub list_beq : List A → List A → Bool
  list_beq [] [] = true
  list_beq [] (b ∷ bs) = false
  list_beq (a ∷ as') [] = false
  list_beq (a ∷ as') (b ∷ bs) = e.beq a b && list_beq as' bs

  pub list_beq_iff : (as' bs : List A) → (list_beq as' bs ≡ true) ↔ (as' ≡ bs)
  unfolding list_beq
  list_beq_iff [] [] = ground arith
  list_beq_iff [] (b ∷ bs) = ground arith
  list_beq_iff (a ∷ as') [] = ground arith
  list_beq_iff (a ∷ as') (b ∷ bs) = ground (arith, e.beq_iff a b, list_beq_iff as' bs)

abbrev pub nat_Eq : Eq ℕ
nat_Eq = record { beq = nat_eq; beq_iff = ==_iff }

abbrev pub int_Eq : Eq ℤ
int_Eq = record { beq = int_eq; beq_iff = int_eq_iff }

abbrev pub bool_Eq : Eq Bool
bool_Eq = record { beq = bool_eq; beq_iff = bool_eq_iff }

abbrev pub text_Eq : Eq (List ℕ)
text_Eq = record { beq = text_eq; beq_iff = text_eq_iff }

abbrev pub option_Eq {ℓ} : {A : Type ℓ} → Eq A → Eq (Option A)
option_Eq e = record { beq = option_beq e; beq_iff = option_beq_iff e }

abbrev pub list_Eq {ℓ} : {A : Type ℓ} → Eq A → Eq (List A)
list_Eq e = record { beq = list_beq e; beq_iff = list_beq_iff e }
