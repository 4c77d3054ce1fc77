-- ===== src/Text/Split.antt =====
-- strings.FieldsFunc, strings.Fields, strings.Split and the trimming of one character.
pub mod Fields
use Prim.Native.String.{[], ◌∷◌}
use gongcli_mcp.Prelude.{
  ℕ, zero, suc, Char, code, String, Bool, ◌&&◌, List, [], ◌∷◌, nat_eq, if◌then◌else◌,
}
use gongcli_mcp.Text.{cat, is_nil, is_space}

-- The text without its leading characters that pass the test.
unfoldable pub trim_left_by : (Char → Bool) → String → String
trim_left_by p [] = []
trim_left_by p (c ∷ s) = if p c then trim_left_by p s else c ∷ s

unfoldable pub trim_right_by : (Char → Bool) → String → String
trim_right_by p [] = []
trim_right_by p (c ∷ s) =
    let rest = trim_right_by p s in if is_nil rest && p c then [] else c ∷ rest

-- s[n:], where the first n characters are ASCII
abbrev pub drop_chars : ℕ → String → String
drop_chars zero s = s
drop_chars (suc n) [] = []
drop_chars (suc n) (c ∷ s) = drop_chars n s

-- The non-empty pieces between separators; `b` is the piece that is being read.
fields_from : (Char → Bool) → String → String → List String
fields_from p b [] = if is_nil b then [] else b ∷ []
fields_from p b (c ∷ s) =
    let cut = fields_from p "" s in
    let kept = fields_from p (cat b (c ∷ "")) s in
    if p c then (if is_nil b then cut else b ∷ cut) else kept

-- strings.FieldsFunc
unfoldable pub fields_func : (Char → Bool) → String → List String
unfolding fields_from
fields_func p s = fields_from p "" s

-- strings.Fields
unfoldable pub fields : String → List String
unfolding fields_func is_space
fields s = fields_func is_space s

split_from : ℕ → String → String → List String
split_from sep b [] = b ∷ []
split_from sep b (c ∷ s) =
    let cut = split_from sep "" s in
    let kept = split_from sep (cat b (c ∷ "")) s in if nat_eq (code c) sep then b ∷ cut else kept

-- strings.Split at one ASCII character
unfoldable pub split : ℕ → String → List String
unfolding split_from
split sep s = split_from sep "" s

-- The texts that are not empty.
abbrev pub full_texts : List String → List String
full_texts [] = []
full_texts (s ∷ ss) = let rest = full_texts ss in if is_nil s then rest else s ∷ rest
