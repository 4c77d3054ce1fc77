-- ===== src/Governance/Name/Quoted.antt =====
-- The words of a text that stands between two quotes in another.
use Prim.Native.String.{[], ◌∷◌}
use gongcli_mcp.Prelude.{
  Char, String, ◌≡◌, refl, sym, ap, ap₂, ◌∙◌, false, List, [], ◌∷◌, ◌++◌, append_assoc, append-nil,
  Bool-cases, inl, inr,
}
use gongcli_mcp.Text.{cat, trim_space, AllChars}
use gongcli_mcp.Text.Trim.{IsSpace, trim_space-parts}
use gongcli_mcp.Text.Unicode.{Unicode, lower, lower_text, alnum, lower_of_space, alnum_of_space}
use gongcli_mcp.Governance.Name.{flush, scan, name_fields}
use gongcli_mcp.Governance.Name.Words.{lower_text-cat}

module _ (u : Unicode) where
  scan-spaces :
      (fields : List String) (l s : String)
      → AllChars IsSpace l
      → scan u fields "" (lower_text u (cat l s)) ≡ scan u fields "" (lower_text u s)
  unfolding scan lower_text flush
  scan-spaces fields [] s h = refl
  scan-spaces fields (c ∷ l) s (p, h) =
      rw (lower_of_space u c p, alnum_of_space u c p) (scan-spaces fields l s h)

  scan_of_spaces :
      (fields : List String) (b r : String)
      → AllChars IsSpace r
      → scan u fields b (lower_text u r) ≡ flush fields b
  unfolding scan lower_text
  scan_of_spaces fields b [] h = refl
  scan_of_spaces fields b (c ∷ r) (p, h) =
      rw (lower_of_space u c p, alnum_of_space u c p)
        (scan_of_spaces (flush fields b) "" r h ∙ unfold flush in refl)

  scan-before_spaces :
      (fields : List String) (b s r : String)
      → AllChars IsSpace r
      → scan u fields b (lower_text u (cat s r)) ≡ scan u fields b (lower_text u s)
  unfolding scan lower_text
  scan-before_spaces fields b [] r h = scan_of_spaces fields b r h
  scan-before_spaces fields b (c ∷ s) r h = elim (Bool-cases (alnum u (lower u c))) [
    | inl kept ↦ rw kept (scan-before_spaces fields (cat b (lower u c ∷ "")) s r h)
    | inr cut ↦ rw cut (scan-before_spaces (flush fields b) "" s r h)
  ]

  -- Trimming changes no word.
  name_fields-scan : (s : String) → name_fields u s ≡ scan u [] "" (lower_text u s)
  unfolding name_fields
  name_fields-scan s =
      let (l, r, h, k, e) = trim_space-parts s in
      sym (
        ap (λ t. scan u [] "" (lower_text u t)) e
        ∙ scan-spaces [] l (cat (trim_space s) r) h
        ∙ scan-before_spaces [] "" (trim_space s) r k)

  flush-append : (fields : List String) (b : String) → flush fields b ≡ fields ++ flush [] b
  unfolding flush
  flush-append fields [] = sym (append-nil fields)
  flush-append fields (c ∷ b) = refl

  scan-append : (fields : List String) (b s : String) → scan u fields b s ≡ fields ++ scan u [] b s
  unfolding scan
  scan-append fields b [] = flush-append fields b
  scan-append fields b (c ∷ s) = elim (Bool-cases (alnum u c)) [
    | inl kept ↦ rw kept (scan-append fields (cat b (c ∷ "")) s)
    | inr cut ↦ rw cut (
        scan-append (flush fields b) "" s
        ∙ ap (λ fs. fs ++ scan u [] "" s) (flush-append fields b)
        ∙ append_assoc fields (flush [] b) (scan u [] "" s)
        ∙ ap (λ fs. fields ++ fs) (sym (scan-append (flush [] b) "" s)))
  ]

  -- What is no letter or digit ends a word.
  scan-cut :
      (fields : List String) (b s : String) (q : Char) (t : String)
      → alnum u q ≡ false
      → scan u fields b (cat s (q ∷ t)) ≡ scan u (scan u fields b s) "" t
  unfolding scan
  scan-cut fields b [] q t h = rw h refl
  scan-cut fields b (c ∷ s) q t h = elim (Bool-cases (alnum u c)) [
    | inl kept ↦ rw kept (scan-cut fields (cat b (c ∷ "")) s q t h)
    | inr cut ↦ rw cut (scan-cut (flush fields b) "" s q t h)
  ]

  name_fields-cut :
      (s : String) (q : Char) (t : String)
      → lower u q ≡ q
      → alnum u q ≡ false
      → name_fields u (cat s (q ∷ t)) ≡ name_fields u s ++ name_fields u t
  unfolding lower_text
  name_fields-cut s q t low h =
      name_fields-scan (cat s (q ∷ t))
      ∙ ap (scan u [] "")
          (lower_text-cat u s (q ∷ t) ∙ ap (λ c. cat (lower_text u s) (c ∷ lower_text u t)) low)
      ∙ scan-cut [] "" (lower_text u s) q (lower_text u t) h
      ∙ scan-append (scan u [] "" (lower_text u s)) "" (lower_text u t)
      ∙ ap₂ (λ xs ys. xs ++ ys) (sym (name_fields-scan s)) (sym (name_fields-scan t))

  lower_quote : lower u "\"" ≡ "\""
  unfolding lower
  lower_quote = refl

  alnum_quote : alnum u "\"" ≡ false
  unfolding alnum
  alnum_quote = refl

  -- The words around a quoted text, and its own between them.
  pub name_fields-quoted :
      (before value after : String)
      → name_fields u (cat before ("\"" ∷ cat value ("\"" ∷ after)))
        ≡ name_fields u before ++ (name_fields u value ++ name_fields u after)
  name_fields-quoted before value after =
      name_fields-cut before "\"" (cat value ("\"" ∷ after)) lower_quote alnum_quote
      ∙ ap (λ ws. name_fields u before ++ ws)
          (name_fields-cut value "\"" after lower_quote alnum_quote)
