-- ===== src/Text.antt =====
-- What the program uses of Go's strings and unicode packages, over valid UTF-8 text: a text is a
-- list of code points.
pub mod Unicode
pub mod Ascii
pub mod Trim
pub mod Split
use Prim.Native.String.{[], ◌∷◌}
use gongcli_mcp.Prelude.{ℕ, Char, code, String, Bool, true, false, ◌&&◌, ◌||◌, List, [], ◌∷◌}
use gongcli_mcp.Prelude.{leb, nat_eq, if◌then◌else◌}

-- s + t
abbrev pub cat : String → String → String
cat [] t = t
cat (c ∷ s) t = c ∷ cat s t

abbrev pub is_nil : String → Bool
is_nil [] = true
is_nil (c ∷ s) = false

abbrev between : ℕ → ℕ → ℕ → Bool
between lo hi n = leb lo n && leb n hi

-- unicode.IsSpace
unfoldable pub is_space : Char → Bool
is_space c =
    between 9 13 (code c)
    || nat_eq (code c) 32
    || nat_eq (code c) 0x85
    || nat_eq (code c) 0xA0
    || nat_eq (code c) 0x1680
    || between 0x2000 0x200A (code c)
    || between 0x2028 0x2029 (code c)
    || nat_eq (code c) 0x202F
    || nat_eq (code c) 0x205F
    || nat_eq (code c) 0x3000

trim_left : String → String
trim_left [] = []
trim_left (c ∷ s) = if is_space c then trim_left s else c ∷ s

trim_right : String → String
trim_right [] = []
trim_right (c ∷ s) = let rest = trim_right s in if is_nil rest && is_space c then [] else c ∷ rest

-- strings.TrimSpace
unfoldable pub trim_space : String → String
unfolding trim_left trim_right is_space
trim_space s = trim_right (trim_left s)

unfoldable pub has_prefix : String → String → Bool
has_prefix s [] = true
has_prefix [] (d ∷ p) = false
has_prefix (c ∷ s) (d ∷ p) = nat_eq (code c) (code d) && has_prefix s p

-- strings.Contains(s, p)
unfoldable pub contains : String → String → Bool
unfolding has_prefix
contains [] p = is_nil p
contains (c ∷ s) p = has_prefix (c ∷ s) p || contains s p

-- strings.Join(parts, sep)
unfoldable pub join : String → List String → String
join sep [] = []
join sep (s ∷ []) = s
join sep (s ∷ t ∷ ts) = cat s (cat sep (join sep (t ∷ ts)))

-- Every character of a text has the property.
abbrev pub AllChars : (Char → Type 0) → String → Type 0
AllChars P [] = Unit
AllChars P (c ∷ s) = P c × AllChars P s

-- utf8.RuneCountInString
unfoldable pub rune_count : String → ℕ
rune_count [] = 0
rune_count (c ∷ s) = ℕ.suc (rune_count s)

-- string(runes[:n]), where a shorter text is kept
unfoldable pub take_runes : ℕ → String → String
take_runes ℕ.zero s = []
take_runes (ℕ.suc n) [] = []
take_runes (ℕ.suc n) (c ∷ s) = c ∷ take_runes n s
