-- ===== src/Governance/Match/Runs.antt =====
-- The substring test on two normalised names finds exactly the runs of whole words.
use Prim.Native.String.{[], ◌∷◌}
use text.Mathlib.TextEquality.{Char-path}
use gongcli_mcp.Prelude.{
  code, String, ◌≡◌, ◌≢◌, refl, sym, ap, ap₂, ◌∙◌, ◌↔◌, inl, inr, true, false, ◌||◌, List, [], ◌∷◌,
  ◌++◌, arith, All, Bool-cases,
}
use gongcli_mcp.Text.{cat, is_space, has_prefix, contains, join, AllChars, trim_space}
use gongcli_mcp.Text.Trim.{NotSpace, IsSolid, trim_space-join, cat_assoc, is_nil-join}
use gongcli_mcp.Text.Unicode.{Unicode}
use gongcli_mcp.Governance.Name.{name_fields, normalize_name}
use gongcli_mcp.Governance.Name.Words.{name_fields-IsWord, IsWord-IsSolid}
use gongcli_mcp.Governance.Match.{padded_contains, normalized_contains_target}

-- `ts` stands in `ws`, as a run of neighbours.
abbrev pub HasRun : List String → List String → Type 0
HasRun ts ws = (before : List String) × (after : List String) × (ws ≡ before ++ (ts ++ after))

-- Each word, with a space behind it.
ended : List String → String
ended [] = ""
ended (w ∷ ws) = cat w (" " ∷ ended ws)

ended_cons : (w : String) (ws : List String) → ended (w ∷ ws) ≡ cat w (" " ∷ ended ws)
unfolding ended
ended_cons w ws = refl

abbrev Unbroken : String → Type 0
Unbroken w = AllChars (λ c. code c ≢ 32) w

NotSpace-Unbroken : (w : String) → AllChars NotSpace w → Unbroken w
unfolding is_space
NotSpace-Unbroken [] h = tt
NotSpace-Unbroken (c ∷ w) (p, h) = (ground arith, NotSpace-Unbroken w h)

All-Unbroken : (ws : List String) → All IsSolid ws → All Unbroken ws
All-Unbroken [] h = tt
All-Unbroken (w ∷ ws) ((_, p), h) = (NotSpace-Unbroken w p, All-Unbroken ws h)

has_prefix-word :
    (v w s p : String)
    → Unbroken v
    → Unbroken w
    → has_prefix (cat v (" " ∷ s)) (cat w (" " ∷ p)) ≡ true
    → (v ≡ w) × (has_prefix s p ≡ true)
unfolding has_prefix
has_prefix-word [] [] s p h k e = (refl, e)
has_prefix-word [] (d ∷ w) s p h k e = absurd (ground arith)
has_prefix-word (c ∷ v) [] s p h k e = absurd (ground arith)
has_prefix-word (c ∷ v) (d ∷ w) s p h k e =
    let same : code c ≡ code d = ground arith in
    let (same_rest, more) = has_prefix-word v w s p h.1 k.1 (ground arith) in
    (ap₂ (λ x y. x ∷ y) (Char-path c d same) same_rest, more)

contains-skip :
    (v s q : String)
    → Unbroken v
    → contains (cat v (" " ∷ s)) (" " ∷ q) ≡ true
    → contains (" " ∷ s) (" " ∷ q) ≡ true
contains-skip [] s q h e = e
contains-skip (c ∷ v) s q h e = contains-skip v s q h.1 (unfold contains has_prefix in ground arith)

no_word : (t p : String) → has_prefix "" (cat t (" " ∷ p)) ≡ true → ⊥
unfolding has_prefix
no_word [] p e = cc
no_word (c ∷ t) p e = cc

has_prefix_sound :
    (ws ts : List String)
    → All Unbroken ws
    → All Unbroken ts
    → has_prefix (ended ws) (ended ts) ≡ true
    → (after : List String) × (ws ≡ ts ++ after)
unfolding ended
has_prefix_sound ws [] h k e = (ws, refl)
has_prefix_sound [] (t ∷ ts) h k e = absurd (no_word t (ended ts) e)
has_prefix_sound (w ∷ ws) (t ∷ ts) h k e =
    let (same, more) = has_prefix-word w t (ended ws) (ended ts) h.0 k.0 e in
    let (after, rest) = has_prefix_sound ws ts h.1 k.1 more in (after, ap₂ (λ x y. x ∷ y) same rest)

contains_blank :
    (s q : String) → contains (" " ∷ s) (" " ∷ q) ≡ (has_prefix s q || contains s (" " ∷ q))
unfolding contains has_prefix
contains_blank s q = refl

contains_sound :
    (ws ts : List String)
    → All Unbroken ws
    → All Unbroken ts
    → contains (" " ∷ ended ws) (" " ∷ ended ts) ≡ true
    → HasRun ts ws
contains_sound [] ts h k e = elim (Bool-cases (has_prefix (ended []) (ended ts))) [
  | inl here ↦ let (after, same) = has_prefix_sound [] ts h k here in ([], after, same)
  | inr later ↦ absurd (unfold contains has_prefix ended in ground arith)
]
contains_sound (w ∷ ws) ts h k e = elim (Bool-cases (has_prefix (ended (w ∷ ws)) (ended ts))) [
  | inl here ↦ let (after, same) = has_prefix_sound (w ∷ ws) ts h k here in ([], after, same)
  | inr later ↦
      let deeper : contains (ended (w ∷ ws)) (" " ∷ ended ts) ≡ true =
        ground (arith, contains_blank (ended (w ∷ ws)) (ended ts)) in
      let (before, after, same) =
        contains_sound ws ts h.1 k
          (contains-skip w (ended ws) (ended ts) h.0 (unfold ended in deeper)) in
      (w ∷ before, after, ap (λ r. w ∷ r) same)
]

has_prefix-cat : (s t : String) → has_prefix (cat s t) s ≡ true
unfolding has_prefix
has_prefix-cat [] t = refl
has_prefix-cat (c ∷ s) t = ground (arith, has_prefix-cat s t)

contains-cat : (s t p : String) → contains t p ≡ true → contains (cat s t) p ≡ true
unfolding contains
contains-cat [] t p h = h
contains-cat (c ∷ s) t p h = ground (arith, contains-cat s t p h)

ended-append : (xs ys : List String) → ended (xs ++ ys) ≡ cat (ended xs) (ended ys)
unfolding ended
ended-append [] ys = refl
ended-append (x ∷ xs) ys =
    ap (λ r. cat x (" " ∷ r)) (ended-append xs ys) ∙ sym (cat_assoc x _ (ended ys))

contains_complete :
    (before ts after : List String)
    → contains (" " ∷ ended (before ++ (ts ++ after))) (" " ∷ ended ts) ≡ true
unfolding contains
contains_complete [] ts after =
    rw (ended-append ts after)
      (unfold has_prefix in ground (arith, has_prefix-cat (ended ts) (ended after)))
contains_complete (w ∷ before) ts after =
    let rest : String = " " ∷ ended (before ++ (ts ++ after)) in
    let skipped : contains (cat w rest) (" " ∷ ended ts) ≡ true =
      contains-cat w rest (" " ∷ ended ts) (contains_complete before ts after) in
    ground (
      arith,
      contains_blank (ended (w ∷ before ++ (ts ++ after))) (ended ts),
      ended_cons w (before ++ (ts ++ after)),
    )

padded-join : (w : String) (ws : List String) → cat (join " " (w ∷ ws)) " " ≡ ended (w ∷ ws)
unfolding join ended
padded-join w [] = refl
padded-join w (v ∷ vs) = cat_assoc w _ " " ∙ ap (λ r. cat w (" " ∷ r)) (padded-join v vs)

padded_contains_of_words :
    (w t : String) (ws ts : List String)
    → IsSolid w
    → IsSolid t
    → padded_contains (join " " (w ∷ ws)) (join " " (t ∷ ts))
      ≡ contains (" " ∷ ended (w ∷ ws)) (" " ∷ ended (t ∷ ts))
unfolding padded_contains
padded_contains_of_words w t ws ts h k =
    rw (is_nil-join " " w ws h.0, is_nil-join " " t ts k.0)
      (ap₂ (λ s p. contains (" " ∷ s) (" " ∷ p)) (padded-join w ws) (padded-join t ts))

no_run : (ts : List String) → ts ≢ [] → HasRun ts [] → ⊥
no_run [] full run = full refl
no_run (t ∷ ts) full ([], after, e) = cc
no_run (t ∷ ts) full (b ∷ before, after, e) = cc

padded_contains-HasRun :
    (ws ts : List String)
    → All IsSolid ws
    → All IsSolid ts
    → (padded_contains (join " " ws) (join " " ts) ≡ true) ↔ ((ts ≢ []) × HasRun ts ws)
unfolding padded_contains join
padded_contains-HasRun [] ts h k = (λ e. cc, λ (full, run). absurd (no_run ts full run))
padded_contains-HasRun (w ∷ ws) [] h k = (λ e. ground arith, λ (full, run). absurd (full refl))
padded_contains-HasRun (w ∷ ws) (t ∷ ts) h k =
    let same = padded_contains_of_words w t ws ts h.0 k.0 in
    (
      λ e. (
        λ none. cc,
        contains_sound (w ∷ ws) (t ∷ ts) (All-Unbroken (w ∷ ws) h) (All-Unbroken (t ∷ ts) k)
            (sym same ∙ e),
      ),
      λ (full, run_here).
          let (before, after, run) = run_here in
          same ∙ rw run (contains_complete before (t ∷ ts) after),
    )

normalized_contains_target_of_words :
    (ws ts : List String)
    → All IsSolid ws
    → All IsSolid ts
    → normalized_contains_target (join " " ws) (join " " ts)
      ≡ padded_contains (join " " ws) (join " " ts)
unfolding normalized_contains_target
normalized_contains_target_of_words ws ts h k =
    ap₂ padded_contains (trim_space-join " " ws h) (trim_space-join " " ts k)

-- One normalised name is found in another exactly when its words, of which there are some, stand
-- there as neighbours.
pub normalized_contains_target-HasRun :
    (u : Unicode) (value name : String)
    → (normalized_contains_target (normalize_name u value) (normalize_name u name) ≡ true)
      ↔ ((name_fields u name ≢ []) × HasRun (name_fields u name) (name_fields u value))
unfolding normalize_name
normalized_contains_target-HasRun u value name =
    let vs = name_fields u value in
    let ns = name_fields u name in
    let solid_vs = IsWord-IsSolid u vs (name_fields-IsWord u value) in
    let solid_ns = IsWord-IsSolid u ns (name_fields-IsWord u name) in
    rw (normalized_contains_target_of_words vs ns solid_vs solid_ns)
      (padded_contains-HasRun vs ns solid_vs solid_ns)

padded_contains_blank : (n : String) → padded_contains n "" ≡ false
unfolding padded_contains
padded_contains_blank [] = refl
padded_contains_blank (c ∷ n) = refl

-- An empty text is not found,
pub contains_target_blank : (n : String) → normalized_contains_target n "" ≡ false
unfolding normalized_contains_target
contains_target_blank n = padded_contains_blank (trim_space n)

-- and nothing is found in one.
pub blank_contains_target : (n : String) → normalized_contains_target "" n ≡ false
unfolding normalized_contains_target
blank_contains_target n = refl
