-- ===== src/Prelude/Loops.antt =====
-- The loop "return true at the first element that passes", and its meaning.
use mathlib.Core.Path.{◌≡◌, refl}
use mathlib.Core.Logic.{◌↔◌}
use mathlib.Core.Bool.{Bool, true, false, ◌||◌}
use mathlib.Core.List.{List, [], ◌∷◌, ◌++◌}
use native.Mathlib.Omega.{arith}
use gongcli_mcp.Prelude.Lists.{any, Any}

module _ {ℓ} {A : Type ℓ} where
  pub any-append : (p : A → Bool) (xs ys : List A) → any p (xs ++ ys) ≡ (any p xs || any p ys)
  any-append p [] ys = refl
  any-append p (x ∷ xs) ys = ground (arith, any-append p xs ys)

  pub any_congr : (p q : A → Bool) (xs : List A) → ((x : A) → p x ≡ q x) → any p xs ≡ any q xs
  any_congr p q [] h = refl
  any_congr p q (x ∷ xs) h = rw (h x, any_congr p q xs h)

  pub any-false : (p : A → Bool) (xs : List A) → ((x : A) → p x ≡ false) → any p xs ≡ false
  any-false p [] h = refl
  any-false p (x ∷ xs) h = rw (h x, any-false p xs h)

-- A loop that tests for a property finds it exactly when some element has it.
pub any-Any {ℓ} :
    {A : Type ℓ} (p : A → Bool) (P : A → Type 0)
    → ((x : A) → (p x ≡ true) ↔ P x)
    → (xs : List A) → (any p xs ≡ true) ↔ Any P xs
any-Any p P same [] = (λ e. cc, λ h. absurd h)
any-Any p P same (x ∷ xs) = ground (arith, same x, any-Any p P same xs)

pub iff_trans {ℓ κ μ} : {A : Type ℓ} {B : Type κ} {C : Type μ} → A ↔ B → B ↔ C → A ↔ C
iff_trans h k = (λ a. k.0 (h.0 a), λ c. h.1 (k.1 c))

pub iff_symm {ℓ κ} : {A : Type ℓ} {B : Type κ} → A ↔ B → B ↔ A
iff_symm h = (h.1, h.0)
