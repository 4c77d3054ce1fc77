-- ===== src/Text/Unicode.antt =====
-- strings.ToLower, unicode.IsLetter and unicode.IsDigit. ASCII is written out; the tables for the
-- other characters belong to the Go runtime and are a parameter with the laws that they have.
use Prim.Native.String.{[], ◌∷◌}
use gongcli_mcp.Prelude.{
  ℕ, ◌≤◌, ◌<◌, ap, Bool-cases, Char, code, String, ◌≡◌, refl, Bool, true, false, ◌&&◌, ◌||◌, ◌⊎◌,
  inl, inr, arith, ltb, leb, nat_eq, if◌then◌else◌,
}
use gongcli_mcp.Text.{is_space, AllChars}

lower_from : String → String → Char → Char
lower_from [] ls c = c
lower_from (u ∷ us) [] c = c
lower_from (u ∷ us) (l ∷ ls) c = if nat_eq (code u) (code c) then l else lower_from us ls c

abbrev upper_letters : String
upper_letters = "ABCDEFGHIJKLMNOPQRSTUVWXYZ"

abbrev lower_letters : String
lower_letters = "abcdefghijklmnopqrstuvwxyz"

pub ascii_lower : Char → Char
ascii_lower c = lower_from upper_letters lower_letters c

abbrev is_ascii : Char → Bool
is_ascii c = ltb (code c) 128

abbrev ascii_letter : ℕ → Bool
ascii_letter n = leb b'A' n && leb n b'Z' || leb b'a' n && leb n b'z'

abbrev ascii_digit : ℕ → Bool
ascii_digit n = leb b'0' n && leb n b'9'

unfoldable pub lower_by : (Char → Char) → Char → Char
lower_by table c = if is_ascii c then ascii_lower c else table c

-- The runtime's tables beyond ASCII, and what the Unicode standard says of them.
pub record Unicode : Type 0 where
  pub to_lower : Char → Char
  pub letter : Char → Bool
  pub digit : Char → Bool
  pub lower_twice : (c : Char) → 128 ≤ code c → lower_by to_lower (to_lower c) ≡ to_lower c
  pub lower_space : (c : Char) → 128 ≤ code c → is_space c ≡ true → to_lower c ≡ c
  pub letter_space : (c : Char) → 128 ≤ code c → is_space c ≡ true → letter c ≡ false
  pub digit_space : (c : Char) → 128 ≤ code c → is_space c ≡ true → digit c ≡ false

-- unicode.ToLower
unfoldable pub lower : Unicode → Char → Char
unfolding lower_by ascii_lower lower_from
lower u c = lower_by u.to_lower c

-- strings.ToLower
unfoldable pub lower_text : Unicode → String → String
unfolding lower
lower_text u [] = []
lower_text u (c ∷ s) = lower u c ∷ lower_text u s

-- unicode.IsLetter(r) || unicode.IsDigit(r)
unfoldable pub alnum : Unicode → Char → Bool
alnum u c =
    if is_ascii c then ascii_letter (code c) || ascii_digit (code c) else u.letter c || u.digit c

-- A letter of the lower table, or the character itself.
lower_from_cases :
    (us ls : String) (c : Char) (P : Char → Type 0)
    → AllChars P ls
    → P (lower_from us ls c) ⊎ (lower_from us ls c ≡ c)
unfolding lower_from
lower_from_cases [] ls c P h = inr refl
lower_from_cases (u ∷ us) [] c P h = inr refl
lower_from_cases (u ∷ us) (l ∷ ls) c P h = ground (arith, lower_from_cases us ls c P h.1)

abbrev IsLowered : Char → Type 0
IsLowered c = (ascii_lower c ≡ c) × (is_ascii c ≡ true)

lower_letters-IsLowered : AllChars IsLowered lower_letters
unfolding ascii_lower lower_from
lower_letters-IsLowered = ground arith

ascii_lower-IsLowered : (c : Char) → is_ascii c ≡ true → IsLowered (ascii_lower c)
unfolding ascii_lower
ascii_lower-IsLowered c h =
    elim (lower_from_cases upper_letters lower_letters c IsLowered lower_letters-IsLowered) [
      | inl found ↦ found
      | inr same ↦ (ap ascii_lower same, rw same h)
    ]

lower_from_of_low :
    (us ls : String) (c : Char) → AllChars (λ u. code c < code u) us → lower_from us ls c ≡ c
unfolding lower_from
lower_from_of_low [] ls c h = refl
lower_from_of_low (u ∷ us) [] c h = refl
lower_from_of_low (u ∷ us) (l ∷ ls) c h = ground (arith, lower_from_of_low us ls c h.1)

module _ (u : Unicode) (c : Char) where
  lower_by_twice : lower_by u.to_lower (lower_by u.to_lower c) ≡ lower_by u.to_lower c
  unfolding lower_by
  lower_by_twice = elim (Bool-cases (is_ascii c)) [
    | inl low ↦ ground (arith, ascii_lower-IsLowered c low)
    | inr high ↦ rw (high, lower_by) (u.lower_twice c (ground arith))
  ]

  -- Lowering is idempotent.
  pub lower-lower : lower u (lower u c) ≡ lower u c
  unfolding lower
  lower-lower = lower_by_twice

  ascii_lower_of_space : is_space c ≡ true → is_ascii c ≡ true → ascii_lower c ≡ c
  unfolding ascii_lower is_space
  ascii_lower_of_space h low =
      lower_from_of_low upper_letters lower_letters c
        (let small : code c < 65 = ground arith in omega arith)

  lower_by_of_space : is_space c ≡ true → lower_by u.to_lower c ≡ c
  unfolding lower_by
  lower_by_of_space h = elim (Bool-cases (is_ascii c)) [
    | inl low ↦ rw low (ascii_lower_of_space h low)
    | inr high ↦ rw high (u.lower_space c (ground arith) h)
  ]

  -- A space has no other case,
  pub lower_of_space : is_space c ≡ true → lower u c ≡ c
  unfolding lower
  lower_of_space h = lower_by_of_space h

  -- and is neither a letter nor a digit.
  pub alnum_of_space : is_space c ≡ true → alnum u c ≡ false
  unfolding alnum
  alnum_of_space h = elim (Bool-cases (is_ascii c)) [
    | inl low ↦ rw low (unfold is_space in ground arith)
    | inr high ↦ ground (arith, u.letter_space c (ground arith) h, u.digit_space c (ground arith) h)
  ]
