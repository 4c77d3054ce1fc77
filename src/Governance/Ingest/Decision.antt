-- ===== src/Governance/Ingest/Decision.antt =====
-- What the decision on a payload says.
use gongcli_mcp.Prelude.{
  String, ◌≡◌, refl, ap, ◌∙◌, ◌↔◌, inl, inr, true, false, not, ◌++◌, append_assoc, Any, Option,
  none, some, List, [], ◌∷◌, arith, any, length, nat_eq,
}
use gongcli_mcp.Text.Unicode.{Unicode}
use gongcli_mcp.Text.{cat}
use gongcli_mcp.Governance.Name.{name_fields}
use gongcli_mcp.Governance.Name.Quoted.{name_fields-quoted}
use gongcli_mcp.Governance.Config.{Config, Entry, customers, list_no_ai, list_notification_required}
use gongcli_mcp.Governance.Audit.{audit_candidates}
use gongcli_mcp.Governance.Audit.Suppressed.{
  Mentions, EntryNames, ConfigNames, restricted, restricted-ConfigNames, any-suppressed_call_ids,
  suppressed_call_count-eq-length,
}
use gongcli_mcp.Governance.Ingest.{
  Decoder, IngestDecision, decided, CallId, found, no_id, decide_call, decide_on, call_id_from_raw,
  evaluate_call_payload,
}

length-zero : (ids : List String) → nat_eq (length ids) 0 ≡ not (any (λ s. true) ids)
length-zero [] = refl
length-zero (id ∷ ids) = ground arith

skip-decide_call :
    (u : Unicode) (cfg : Option Config) (raw id : String)
    → (decide_call u cfg raw id).skip ≡ restricted u cfg raw
unfolding decide_call
skip-decide_call u cfg raw id =
    let cs = record { call_id = id; source = "call_payload"; value = raw } ∷ [] in
    let audit = audit_candidates u cs cfg in
    ground (
      arith,
      suppressed_call_count-eq-length u cfg cs,
      length-zero audit.suppressed_call_ids,
      any-suppressed_call_ids (λ s. true) u cfg cs,
    )

skip-decide_on :
    (u : Unicode) (cfg : Config) (raw : String) (r : CallId) (d : IngestDecision)
    → decide_on u cfg raw r ≡ decided d
    → d.skip ≡ restricted u (some cfg) raw
unfolding decide_on
skip-decide_on u cfg raw (no_id e) d h = cc
skip-decide_on u cfg raw (found id) d h = cc (skip-decide_call u (some cfg) raw id)

evaluate_skip_iff :
    (json : Decoder) (u : Unicode) (raw : String) (cfg : Option Config) (d : IngestDecision)
    → evaluate_call_payload json u raw cfg ≡ decided d
    → (d.skip ≡ true) ↔ ConfigNames (Mentions u raw) cfg
unfolding evaluate_call_payload
evaluate_skip_iff json u raw none d h = (λ e. cc, λ n. absurd n)
evaluate_skip_iff json u raw (some cfg) d h =
    rw (skip-decide_on u cfg raw (call_id_from_raw json raw) d h)
      (restricted-ConfigNames u (some cfg) raw)

-- The value stands between two quotes in the raw text, as a string of JSON without escapes does.
abbrev pub Quotes : String → String → Type 0
Quotes raw value =
    (before after : String) × (raw ≡ cat before (cat "\"" (cat value (cat "\"" after))))

Mentions-quoted :
    (u : Unicode) (raw value text : String)
    → Quotes raw value
    → Mentions u value text
    → Mentions u raw text
Mentions-quoted u raw value text (b, a, e) (full, (before, after, run)) =
    let ts = name_fields u text in
    let parts : name_fields u raw
        ≡ name_fields u b ++ ((before ++ (ts ++ after)) ++ name_fields u a) =
      ap (name_fields u) e
      ∙ name_fields-quoted u b value a
      ∙ ap (λ ws. name_fields u b ++ (ws ++ name_fields u a)) run in
    (full, (name_fields u b ++ before, after ++ name_fields u a, parts ∙ simp append_assoc))

module _ (P Q : String → Type 0) (f : (s : String) → P s → Q s) where
  Any_imp : (xs : List String) → Any P xs → Any Q xs
  Any_imp [] h = h
  Any_imp (x ∷ xs) (inl p) = inl (f x p)
  Any_imp (x ∷ xs) (inr h) = inr (Any_imp xs h)

  entries_imp : (es : List Entry) → Any (EntryNames P) es → Any (EntryNames Q) es
  entries_imp [] h = h
  entries_imp (e ∷ es) (inl (inl p)) = inl (inl (f e.name p))
  entries_imp (e ∷ es) (inl (inr p)) = inl (inr (Any_imp e.aliases p))
  entries_imp (e ∷ es) (inr h) = inr (entries_imp es h)

  ConfigNames-imp : (cfg : Option Config) → ConfigNames P cfg → ConfigNames Q cfg
  ConfigNames-imp none h = h
  ConfigNames-imp (some cfg) (inl h) = inl (entries_imp (customers cfg list_no_ai) h)
  ConfigNames-imp (some cfg) (inr h) =
      inr (entries_imp (customers cfg list_notification_required) h)

-- Neither the raw text nor a string that it quotes mentions a listed name or alias.
pub record IsFree (u : Unicode) (cfg : Option Config) (raw : String) : Type 0 where
  pub raw_text : ConfigNames (Mentions u raw) cfg → ⊥
  pub strings : (value : String) → Quotes raw value → ConfigNames (Mentions u value) cfg → ⊥

-- A payload that is decided on and not skipped is free of the listed customers.
pub kept-IsFree :
    (json : Decoder) (u : Unicode) (raw : String) (cfg : Option Config) (d : IngestDecision)
    → evaluate_call_payload json u raw cfg ≡ decided d
    → d.skip ≡ false
    → IsFree u cfg raw
kept-IsFree json u raw cfg d h kept =
    let (_, skips) = evaluate_skip_iff json u raw cfg d h in
    record {
      raw_text = λ named. cc (skips named);
      strings = λ value quoted named. cc (
          skips (
            ConfigNames-imp (Mentions u value) (Mentions u raw)
              (λ text. Mentions-quoted u raw value text quoted) cfg named));
    }

-- With a config, a payload that is decided on is skipped exactly when the words of a listed name or
-- alias stand together in its raw JSON text, as it is written, with its escapes not decoded. So it is
-- skipped when they stand in a string that the text holds between quotes with no escape in it. With
-- no config no call is skipped.
pub evaluate_skip-Mentions :
    (json : Decoder) (u : Unicode) (raw : String) (cfg : Option Config) (d : IngestDecision)
    → evaluate_call_payload json u raw cfg ≡ decided d
    → ((d.skip ≡ true) ↔ ConfigNames (Mentions u raw) cfg)
      × ((value : String) → Quotes raw value → ConfigNames (Mentions u value) cfg → d.skip ≡ true)
evaluate_skip-Mentions json u raw cfg d h =
    let same = evaluate_skip_iff json u raw cfg d h in
    (
      same,
      λ value quoted named. same.1 (
          ConfigNames-imp (Mentions u value) (Mentions u raw)
            (λ text. Mentions-quoted u raw value text quoted) cfg named),
    )
