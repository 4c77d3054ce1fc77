-- ===== src/Text/Split/Fields.antt =====
-- strings.Fields of words that strings.Join put together.
use Prim.Native.String.{[], ◌∷◌}
use gongcli_mcp.Prelude.{String, ◌≡◌, refl, sym, ap, ◌∙◌, true, false, List, [], ◌∷◌, All, arith}
use gongcli_mcp.Text.{cat, is_nil, is_space, has_prefix, join, AllChars}
use gongcli_mcp.Text.Trim.{NotSpace, IsSolid, cat_assoc, cat-nil}
use gongcli_mcp.Text.Split.{fields_from, fields_func, fields}

-- The characters of a word go to the piece that is being read.
fields_from-cat :
    (b w r : String)
    → AllChars NotSpace w
    → fields_from is_space b (cat w r) ≡ fields_from is_space (cat b w) r
unfolding fields_from
fields_from-cat b [] r h = ap (λ s. fields_from is_space s r) (sym (cat-nil b))
fields_from-cat b (c ∷ w) r (keep, h) =
    let first : fields_from is_space b (c ∷ cat w r)
        ≡ fields_from is_space (cat b (c ∷ "")) (cat w r) =
      rw keep in
    first
    ∙ fields_from-cat (cat b (c ∷ "")) w r h
    ∙ ap (λ s. fields_from is_space s r) (cat_assoc b (c ∷ "") w)

fields_from_end : (w : String) → is_nil w ≡ false → fields_from is_space w "" ≡ w ∷ []
unfolding fields_from
fields_from_end w full = rw full

fields_from_space :
    (w r : String)
    → is_nil w ≡ false
    → fields_from is_space w (cat " " r) ≡ w ∷ fields_from is_space "" r
unfolding fields_from is_space
fields_from_space w r full = rw full

fields_from-join : (ws : List String) → All IsSolid ws → fields_from is_space "" (join " " ws) ≡ ws
unfolding join
fields_from-join [] h = unfold fields_from in refl
fields_from-join (w ∷ []) ((full, h), hs) =
    ap (fields_from is_space "") (sym (cat-nil w))
    ∙ fields_from-cat "" w "" h
    ∙ fields_from_end w full
fields_from-join (w ∷ v ∷ vs) ((full, h), hs) =
    fields_from-cat "" w _ h
    ∙ fields_from_space w _ full
    ∙ ap (λ us. w ∷ us) (fields_from-join (v ∷ vs) hs)

-- The fields of solid words that are joined are the words.
pub fields-join : (ws : List String) → All IsSolid ws → fields (join " " ws) ≡ ws
unfolding fields fields_func
fields-join ws h = fields_from-join ws h

pub has_prefix-cat : (s r : String) → has_prefix (cat s r) s ≡ true
unfolding has_prefix
has_prefix-cat [] r = refl
has_prefix-cat (c ∷ s) r = ground (arith, has_prefix-cat s r)
