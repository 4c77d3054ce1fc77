-- ===== src/Governance/Name/Words.antt =====
-- What a normalised name is: words of lowered letters and digits, one space between them.
use Prim.Native.String.{[], ◌∷◌}
use gongcli_mcp.Prelude.{
  Char, String, ◌≡◌, refl, sym, ap, ap₂, ◌∙◌, true, false, List, [], ◌∷◌, ◌++◌, append_assoc,
  append-nil, All, All-append, Bool-cases, inl, inr,
}
use gongcli_mcp.Text.{cat, is_nil, is_space, trim_space, join, AllChars}
use gongcli_mcp.Text.Trim.{NotSpace, IsSolid, trim_space-join, cat_assoc, cat-nil}
use gongcli_mcp.Text.Unicode.{
  Unicode, lower, lower_text, alnum, lower-lower, lower_of_space, alnum_of_space,
}
use gongcli_mcp.Governance.Name.{flush, scan, name_fields, normalize_name}

module _ (u : Unicode) where
  -- A rune that lowering keeps.
  abbrev IsLow : Char → Type 0
  IsLow c = lower u c ≡ c

  abbrev pub IsPlain : Char → Type 0
  IsPlain c = (alnum u c ≡ true) × IsLow c

  -- A non-empty run of lowered letters and digits.
  abbrev pub IsWord : String → Type 0
  IsWord w = (is_nil w ≡ false) × AllChars IsPlain w

  AllChars-push :
      (b : String) (c : Char) → AllChars IsPlain b → IsPlain c → AllChars IsPlain (cat b (c ∷ ""))
  AllChars-push [] c h p = (p, tt)
  AllChars-push (d ∷ b) c (q, h) p = (q, AllChars-push b c h p)

  flush-IsWord :
      (fields : List String) (b : String)
      → All IsWord fields
      → AllChars IsPlain b
      → All IsWord (flush fields b)
  unfolding flush
  flush-IsWord fields [] h k = h
  flush-IsWord fields (c ∷ b) h k = All-append IsWord fields _ h ((refl, k), tt)

  scan-IsWord :
      (fields : List String) (b s : String)
      → All IsWord fields
      → AllChars IsPlain b
      → AllChars IsLow s
      → All IsWord (scan u fields b s)
  unfolding scan
  scan-IsWord fields b [] h k l = flush-IsWord fields b h k
  scan-IsWord fields b (c ∷ s) h k (p, l) = elim (Bool-cases (alnum u c)) [
    | inl kept ↦ rw kept (scan-IsWord fields _ s h (AllChars-push b c k (kept, p)) l)
    | inr cut ↦ rw cut (scan-IsWord (flush fields b) "" s (flush-IsWord fields b h k) tt l)
  ]

  lower_text-IsLow : (s : String) → AllChars IsLow (lower_text u s)
  unfolding lower_text
  lower_text-IsLow [] = tt
  lower_text-IsLow (c ∷ s) = (lower-lower u c, lower_text-IsLow s)

  -- The fields of any text are words.
  pub name_fields-IsWord : (value : String) → All IsWord (name_fields u value)
  unfolding name_fields
  name_fields-IsWord value = scan-IsWord [] "" _ tt tt (lower_text-IsLow (trim_space value))

  IsPlain-NotSpace : (c : Char) → IsPlain c → NotSpace c
  IsPlain-NotSpace c (p, _) = elim (Bool-cases (is_space c)) [
    | inl space ↦ absurd (cc (alnum_of_space u c space))
    | inr solid ↦ solid
  ]

  AllChars-NotSpace : (w : String) → AllChars IsPlain w → AllChars NotSpace w
  AllChars-NotSpace [] h = tt
  AllChars-NotSpace (c ∷ w) (p, h) = (IsPlain-NotSpace c p, AllChars-NotSpace w h)

  pub IsWord-IsSolid : (ws : List String) → All IsWord ws → All IsSolid ws
  IsWord-IsSolid [] h = tt
  IsWord-IsSolid (w ∷ ws) ((p, q), h) = ((p, AllChars-NotSpace w q), IsWord-IsSolid ws h)

  pub lower_text-cat :
      (s t : String) → lower_text u (cat s t) ≡ cat (lower_text u s) (lower_text u t)
  unfolding lower_text
  lower_text-cat [] t = refl
  lower_text-cat (c ∷ s) t = ap (λ r. lower u c ∷ r) (lower_text-cat s t)

  lower_text_of_word : (w : String) → AllChars IsPlain w → lower_text u w ≡ w
  unfolding lower_text
  lower_text_of_word [] h = refl
  lower_text_of_word (c ∷ w) ((_, p), h) = cc (p, lower_text_of_word w h)

  lower_blank : lower u " " ≡ " "
  lower_blank = lower_of_space u " " (unfold is_space in refl)

  alnum_blank : alnum u " " ≡ false
  alnum_blank = alnum_of_space u " " (unfold is_space in refl)

  lower_text-join : (ws : List String) → All IsWord ws → lower_text u (join " " ws) ≡ join " " ws
  unfolding join lower_text
  lower_text-join [] h = refl
  lower_text-join (w ∷ []) h = lower_text_of_word w h.0.1
  lower_text-join (w ∷ v ∷ vs) h =
      lower_text-cat w _
      ∙ ap₂ cat (lower_text_of_word w h.0.1)
          (ap₂ (λ c r. c ∷ r) lower_blank (lower_text-join (v ∷ vs) h.1))

  scan-cat :
      (fields : List String) (b w s : String)
      → AllChars IsPlain w
      → scan u fields b (cat w s) ≡ scan u fields (cat b w) s
  unfolding scan
  scan-cat fields b [] s h = rw cat-nil
  scan-cat fields b (c ∷ w) s ((p, _), h) =
      rw p (scan-cat fields _ w s h ∙ ap (λ t. scan u fields t s) (cat_assoc b (c ∷ "") w))

  flush_of_word : (fields : List String) (w : String) → IsWord w → flush fields w ≡ fields ++ w ∷ []
  unfolding flush
  flush_of_word fields w h = rw (h.0)

  scan-join :
      (fields ws : List String) → All IsWord ws → scan u fields "" (join " " ws) ≡ fields ++ ws
  unfolding scan join
  scan-join fields [] h = unfold flush in sym (append-nil fields)
  scan-join fields (w ∷ []) h =
      ap (λ t. scan u fields "" t) (sym (cat-nil w))
      ∙ scan-cat fields "" w "" h.0.1
      ∙ flush_of_word fields w h.0
  scan-join fields (w ∷ v ∷ vs) h =
      scan-cat fields "" w _ h.0.1
      ∙ rw alnum_blank (
          scan-join (flush fields w) (v ∷ vs) h.1
          ∙ rw (flush_of_word fields w h.0) (append_assoc fields (w ∷ []) (v ∷ vs)))

  -- Words joined by a space are read back.
  pub name_fields-join : (ws : List String) → All IsWord ws → name_fields u (join " " ws) ≡ ws
  unfolding name_fields
  name_fields-join ws h =
      rw (trim_space-join " " ws (IsWord-IsSolid ws h))
        (rw (lower_text-join ws h) (scan-join [] ws h))

-- Normalising a name a second time changes nothing.
pub normalize_name_idempotent :
    (u : Unicode) (value : String)
    → normalize_name u (normalize_name u value) ≡ normalize_name u value
unfolding normalize_name
normalize_name_idempotent u value =
    ap (join " ") (name_fields-join u (name_fields u value) (name_fields-IsWord u value))

-- The normalised name is the join of the fields.
pub name_fields-normalize_name :
    (u : Unicode) (value : String) → name_fields u (normalize_name u value) ≡ name_fields u value
unfolding normalize_name
name_fields-normalize_name u value =
    name_fields-join u (name_fields u value) (name_fields-IsWord u value)
