-- ===== src/Prelude/Sets.antt =====
-- Go's sets of texts, map[string]struct{}, as lists without repetition, and sort.Strings.
use Prim.Native.String.{String, compare}
use mathlib.Core.Path.{◌≡◌, refl}
use mathlib.Core.Bool.{Bool, true, ◌||◌}
use mathlib.Core.List.{List, [], ◌∷◌, ◌++◌}
use native.Mathlib.Omega.{arith}
use text.Mathlib.Text.{◌==◌, is_lt}
use text.Mathlib.TextEquality.{eq_iff}
use gongcli_mcp.Prelude.Lists.{any, All}
use gongcli_mcp.Prelude.Loops.{any-append}
use gongcli_mcp.Prelude.Tests.{if◌then◌else◌, Bool-cases}
use mathlib.Core.Logic.{inl, inr}

-- _, ok := set[k]
abbrev pub has : String → List String → Bool
has k set = any (λ s. s == k) set

-- set[k] = struct{}{}
unfoldable pub add : String → List String → List String
add k set = if has k set then set else set ++ k ∷ []

abbrev pub str_lt : String → String → Bool
str_lt a b = is_lt (compare a b)

-- Insertion that keeps the order of what compares equal, the heart of a stable sort.
unfoldable pub insert_by {ℓ} : {A : Type ℓ} → (A → A → Bool) → A → List A → List A
insert_by less x [] = x ∷ []
insert_by less x (y ∷ ys) = if less y x then y ∷ insert_by less x ys else x ∷ y ∷ ys

-- sort.SliceStable
unfoldable pub sort_stable {ℓ} : {A : Type ℓ} → (A → A → Bool) → List A → List A
unfolding insert_by
sort_stable less [] = []
sort_stable less (x ∷ xs) = insert_by less x (sort_stable less xs)

-- sort.Strings
unfoldable pub sort_strings : List String → List String
unfolding sort_stable
sort_strings xs = sort_stable str_lt xs

module _ {ℓ} {A : Type ℓ} (p : A → Bool) (less : A → A → Bool) where
  any-insert_by : (x : A) (ys : List A) → any p (insert_by less x ys) ≡ (p x || any p ys)
  unfolding insert_by
  any-insert_by x [] = refl
  any-insert_by x (y ∷ ys) = ground (arith, any-insert_by x ys)

  -- Sorting keeps what is there.
  pub any-sort_stable : (xs : List A) → any p (sort_stable less xs) ≡ any p xs
  unfolding sort_stable
  any-sort_stable [] = refl
  any-sort_stable (x ∷ xs) =
      ground (arith, any-insert_by x (sort_stable less xs), any-sort_stable xs)

pub any-sort_strings : (p : String → Bool) (xs : List String) → any p (sort_strings xs) ≡ any p xs
unfolding sort_strings
any-sort_strings p xs = any-sort_stable p str_lt xs

any_of_has :
    (p : String → Bool) (k : String) (set : List String)
    → has k set ≡ true
    → any p set ≡ (any p set || p k)
any_of_has p k [] h = cc
any_of_has p k (s ∷ set) h = ground (arith, eq_iff s k, any_of_has p k set)

-- Adding to a set.
pub any-add :
    (p : String → Bool) (k : String) (set : List String) → any p (add k set) ≡ (any p set || p k)
unfolding add
any-add p k set = elim (Bool-cases (has k set)) [
  | inl old ↦ rw old (any_of_has p k set old)
  | inr new ↦ rw new (ground (arith, any-append p set (k ∷ [])))
]

module _ {ℓ} {A : Type ℓ} (P : A → Type 0) (less : A → A → Bool) where
  All-insert_by : (x : A) (ys : List A) → P x → All P ys → All P (insert_by less x ys)
  unfolding insert_by
  All-insert_by x [] p h = (p, tt)
  All-insert_by x (y ∷ ys) p (q, h) = ground (arith, All-insert_by x ys p h)

  pub All-sort_stable : (xs : List A) → All P xs → All P (sort_stable less xs)
  unfolding sort_stable
  All-sort_stable [] h = tt
  All-sort_stable (x ∷ xs) (p, h) = All-insert_by x (sort_stable less xs) p (All-sort_stable xs h)
