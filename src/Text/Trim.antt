-- ===== src/Text/Trim.antt =====
-- Trimming a text whose ends are not spaces.
use Prim.Native.String.{[], ◌∷◌}
use gongcli_mcp.Prelude.{
  Char, String, ◌≡◌, refl, ap, ◌∙◌, true, false, ◌↔◌, ◌&&◌, List, [], ◌∷◌, arith, All, Bool-cases,
  inl, inr,
}
use gongcli_mcp.Text.{cat, is_nil, is_space, trim_left, trim_right, trim_space, join, AllChars}

abbrev pub NotSpace : Char → Type 0
NotSpace c = is_space c ≡ false

-- A non-empty text with no space in it.
abbrev pub IsSolid : String → Type 0
IsSolid w = (is_nil w ≡ false) × AllChars NotSpace w

trim_right_of_NotSpace : (w : String) → AllChars NotSpace w → trim_right w ≡ w
unfolding trim_right
trim_right_of_NotSpace [] h = refl
trim_right_of_NotSpace (c ∷ w) h = ground (arith, trim_right_of_NotSpace w h.1)

is_nil-cat_right : (s t : String) → is_nil t ≡ false → is_nil (cat s t) ≡ false
is_nil-cat_right [] t h = h
is_nil-cat_right (c ∷ s) t h = refl

trim_right-cat :
    (s t : String) → trim_right t ≡ t → is_nil t ≡ false → trim_right (cat s t) ≡ cat s t
unfolding trim_right
trim_right-cat [] t e h = e
trim_right-cat (c ∷ s) t e h = rw (trim_right-cat s t e h) (ground (arith, is_nil-cat_right s t h))

trim_left-cat : (w t : String) → IsSolid w → trim_left (cat w t) ≡ cat w t
unfolding trim_left
trim_left-cat [] t h = cc
trim_left-cat (c ∷ w) t h = rw (h.1.0)

is_nil-cat_left : (w t : String) → is_nil w ≡ false → is_nil (cat w t) ≡ false
is_nil-cat_left [] t h = cc
is_nil-cat_left (c ∷ w) t h = refl

pub cat_assoc : (s t r : String) → cat (cat s t) r ≡ cat s (cat t r)
cat_assoc [] t r = refl
cat_assoc (c ∷ s) t r = ap (λ q. c ∷ q) (cat_assoc s t r)

pub cat-nil : (s : String) → cat s "" ≡ s
cat-nil [] = refl
cat-nil (c ∷ s) = ap (λ t. c ∷ t) (cat-nil s)

pub is_nil-join :
    (sep w : String) (ws : List String) → is_nil w ≡ false → is_nil (join sep (w ∷ ws)) ≡ false
unfolding join
is_nil-join sep w [] h = h
is_nil-join sep w (v ∷ vs) h = is_nil-cat_left w _ h

trim_right-join :
    (sep : String) (ws : List String) → All IsSolid ws → trim_right (join sep ws) ≡ join sep ws
unfolding join
trim_right-join sep [] h = unfold trim_right in refl
trim_right-join sep (w ∷ []) h = trim_right_of_NotSpace w h.0.1
trim_right-join sep (w ∷ v ∷ vs) h =
    let full : is_nil (join sep (v ∷ vs)) ≡ false = is_nil-join sep v vs h.1.0.0 in
    trim_right-cat w _ (trim_right-cat sep _ (trim_right-join sep (v ∷ vs) h.1) full)
      (is_nil-cat_right sep _ full)

trim_left-join :
    (sep : String) (ws : List String) → All IsSolid ws → trim_left (join sep ws) ≡ join sep ws
unfolding join
trim_left-join sep [] h = unfold trim_left in refl
trim_left-join sep (w ∷ []) h = rw (← cat-nil w) (trim_left-cat w "" h.0)
trim_left-join sep (w ∷ v ∷ vs) h = trim_left-cat w _ h.0

-- Words with no space in them, joined, have nothing to trim.
pub trim_space-join :
    (sep : String) (ws : List String) → All IsSolid ws → trim_space (join sep ws) ≡ join sep ws
unfolding trim_space
trim_space-join sep ws h = ap trim_right (trim_left-join sep ws h) ∙ trim_right-join sep ws h

pub is_nil_iff : (s : String) → (is_nil s ≡ true) ↔ (s ≡ "")
is_nil_iff [] = (λ h. refl, λ h. refl)
is_nil_iff (c ∷ s) = (λ h. cc, λ h. ap is_nil h)

abbrev pub IsSpace : Char → Type 0
IsSpace c = is_space c ≡ true

trim_left-parts : (s : String) → (l : String) × AllChars IsSpace l × (s ≡ cat l (trim_left s))
unfolding trim_left
trim_left-parts [] = ("", tt, refl)
trim_left-parts (c ∷ s) = elim (Bool-cases (is_space c)) [
  | inl space ↦
      let (l, h, e) = trim_left-parts s in
      (c ∷ l, (space, h), rw (space, trim_left) (ap (λ t. c ∷ t) e))
  | inr solid ↦ ("", tt, rw solid refl)
]

trim_right-parts : (s : String) → (r : String) × AllChars IsSpace r × (s ≡ cat (trim_right s) r)
unfolding trim_right
trim_right-parts [] = ("", tt, refl)
trim_right-parts (c ∷ s) =
    let (r, h, e) = trim_right-parts s in
    elim (Bool-cases (is_nil (trim_right s) && is_space c)) [
      | inl cut ↦
          let blank = (is_nil_iff (trim_right s)).0 (ground arith) in
          (
            c ∷ r,
            (ground arith, h),
            rw (cut, trim_right) (ap (λ t. c ∷ t) (e ∙ ap (λ t. cat t r) blank)),
          )
      | inr kept ↦ (r, h, rw (kept, trim_right) (ap (λ t. c ∷ t) e))
    ]

-- What is trimmed is spaces at both ends.
pub trim_space-parts :
    (s : String)
    → (l r : String) × AllChars IsSpace l × AllChars IsSpace r × (s ≡ cat l (cat (trim_space s) r))
unfolding trim_space
trim_space-parts s =
    let (l, h, e) = trim_left-parts s in
    let (r, k, f) = trim_right-parts (trim_left s) in (l, r, h, k, e ∙ ap (cat l) f)
