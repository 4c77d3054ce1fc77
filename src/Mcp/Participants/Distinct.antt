-- ===== src/Mcp/Participants/Distinct.antt =====
-- What the list of internal domains holds.
use gongcli_mcp.Prelude.{
  String, ◌==◌, ◌≡◌, refl, Bool, false, not, ◌||◌, ◌&&◌, List, [], ◌∷◌, ◌++◌, any, All, All-append,
  is_empty, arith, Bool-cases, inl, inr, eq_iff, if◌then◌else◌,
}
use gongcli_mcp.Prelude.Loops.{any-append}
use gongcli_mcp.Prelude.Sets.{has, add, any-add}
use gongcli_mcp.Text.{is_nil}
use gongcli_mcp.Text.Unicode.{Unicode}
use gongcli_mcp.Mcp.Participants.{
  default_internal_participant_domain, normalize_participant_email_domain, collect_domains,
  normalize_internal_participant_domains, resolve_internal_participant_domains,
}

-- No text comes twice.
pub IsDistinct : List String → Type 0
IsDistinct [] = Unit
IsDistinct (s ∷ set) = (has s set ≡ false) × IsDistinct set

abbrev IsNamed : String → Type 0
IsNamed s = is_nil s ≡ false

append-IsDistinct :
    (k : String) (set : List String)
    → has k set ≡ false
    → IsDistinct set
    → IsDistinct (set ++ k ∷ [])
unfolding IsDistinct
append-IsDistinct k [] new h = (refl, tt)
append-IsDistinct k (s ∷ set) new (apart, h) = (
  ground (arith, any-append (λ x. x == s) set (k ∷ []), eq_iff k s, eq_iff s k),
  append-IsDistinct k set (ground arith) h,
)

-- Adding keeps a list distinct and its members named.
add-IsDistinct : (k : String) (set : List String) → IsDistinct set → IsDistinct (add k set)
unfolding add
add-IsDistinct k set h = elim (Bool-cases (has k set)) [
  | inl old ↦ rw old h
  | inr new ↦ rw new (append-IsDistinct k set new h)
]

add-IsNamed :
    (k : String) (set : List String) → IsNamed k → All IsNamed set → All IsNamed (add k set)
unfolding add
add-IsNamed k set named h = elim (Bool-cases (has k set)) [
  | inl old ↦ rw old h
  | inr new ↦ rw new (All-append IsNamed set (k ∷ []) h (named, tt))
]

is_empty-add : (k : String) (set : List String) → is_empty (add k set) ≡ false
unfolding add
is_empty-add k [] = refl
is_empty-add k (s ∷ set) = elim (Bool-cases (has k (s ∷ set))) [
  | inl old ↦ rw old refl
  | inr new ↦ rw new refl
]

-- A list of domains that participants are compared with.
pub IsDomainList : List String → Type 0
IsDomainList set = (is_empty set ≡ false) × IsDistinct set × All IsNamed set

module _ (u : Unicode) where
  -- The entry gives a domain.
  pub gives : String → Bool
  gives raw = not (is_nil (normalize_participant_email_domain u raw))

  pub gives_as : String → String → Bool
  gives_as d raw = gives raw && (normalize_participant_email_domain u raw == d)

  collect_domains-IsDistinct :
      (raws out : List String) → IsDistinct out → IsDistinct (collect_domains u raws out)
  unfolding collect_domains
  collect_domains-IsDistinct [] out h = h
  collect_domains-IsDistinct (raw ∷ raws) out h =
      elim (Bool-cases (is_nil (normalize_participant_email_domain u raw))) [
        | inl blank ↦ rw blank (collect_domains-IsDistinct raws out h)
        | inr named ↦ rw named (
            collect_domains-IsDistinct raws (add (normalize_participant_email_domain u raw) out)
              (add-IsDistinct (normalize_participant_email_domain u raw) out h))
      ]

  collect_domains-IsNamed :
      (raws out : List String) → All IsNamed out → All IsNamed (collect_domains u raws out)
  unfolding collect_domains
  collect_domains-IsNamed [] out h = h
  collect_domains-IsNamed (raw ∷ raws) out h =
      elim (Bool-cases (is_nil (normalize_participant_email_domain u raw))) [
        | inl blank ↦ rw blank (collect_domains-IsNamed raws out h)
        | inr named ↦ rw named (
            collect_domains-IsNamed raws (add (normalize_participant_email_domain u raw) out)
              (add-IsNamed (normalize_participant_email_domain u raw) out named h))
      ]

  is_empty-collect_domains :
      (raws out : List String)
      → is_empty (collect_domains u raws out) ≡ (is_empty out && not (any gives raws))
  unfolding collect_domains gives
  is_empty-collect_domains [] out = ground arith
  is_empty-collect_domains (raw ∷ raws) out =
      let domain = normalize_participant_email_domain u raw in
      ground (
        arith,
        is_empty-collect_domains raws out,
        is_empty-collect_domains raws (add domain out),
        is_empty-add domain out,
      )

  has-collect_domains :
      (d : String) (raws out : List String)
      → has d (collect_domains u raws out) ≡ (has d out || any (gives_as d) raws)
  unfolding collect_domains gives gives_as
  has-collect_domains d [] out = ground arith
  has-collect_domains d (raw ∷ raws) out =
      let domain = normalize_participant_email_domain u raw in
      ground (
        arith,
        has-collect_domains d raws out,
        has-collect_domains d raws (add domain out),
        any-add (λ s. s == d) domain out,
      )

  pub normalize_internal_participant_domains-IsDomainList :
      (domains : List String) → IsDomainList (normalize_internal_participant_domains u domains)
  unfolding normalize_internal_participant_domains IsDomainList IsDistinct
  normalize_internal_participant_domains-IsDomainList [] = (refl, (refl, tt), (refl, tt))
  normalize_internal_participant_domains-IsDomainList (raw ∷ raws) =
      let out = collect_domains u (raw ∷ raws) [] in
      elim (Bool-cases (is_empty out)) [
        | inl none ↦ rw none (refl, (refl, tt), (refl, tt))
        | inr some ↦ rw some (
          some,
          collect_domains-IsDistinct (raw ∷ raws) [] tt,
          collect_domains-IsNamed (raw ∷ raws) [] tt,
        )
      ]

  -- The domain is in the list that the entries make.
  pub named_by : String → List String → Bool
  named_by d raws =
      if any gives raws then any (gives_as d) raws else (default_internal_participant_domain == d)

  pub has-normalize_internal_participant_domains :
      (d : String) (domains : List String)
      → has d (normalize_internal_participant_domains u domains) ≡ named_by d domains
  unfolding normalize_internal_participant_domains named_by
  has-normalize_internal_participant_domains d [] = ground arith
  has-normalize_internal_participant_domains d (raw ∷ raws) =
      ground
        (arith, is_empty-collect_domains (raw ∷ raws) [], has-collect_domains d (raw ∷ raws) [])

  -- The list that a request is answered with has a domain, has no domain twice and none that is
  -- empty, whatever the server's entries and those of the request.
  pub resolve_internal_participant_domains-IsDomainList :
      (server_domains arg_domains : List String)
      → IsDomainList (resolve_internal_participant_domains u server_domains arg_domains)
  unfolding resolve_internal_participant_domains
  resolve_internal_participant_domains-IsDomainList [] [] =
      normalize_internal_participant_domains-IsDomainList []
  resolve_internal_participant_domains-IsDomainList (s ∷ ss) [] =
      normalize_internal_participant_domains-IsDomainList (s ∷ ss)
  resolve_internal_participant_domains-IsDomainList ss (a ∷ rest) =
      normalize_internal_participant_domains-IsDomainList (a ∷ rest)

  -- A domain is in the list that a request is answered with exactly if an entry gives it, of the
  -- request's entries where it has any and of the server's otherwise; where none of these gives a
  -- domain, only the default is in the list.
  pub has-resolve_internal_participant_domains :
      (d : String) (server_domains arg_domains : List String)
      → has d (resolve_internal_participant_domains u server_domains arg_domains)
        ≡ named_by d (if is_empty arg_domains then server_domains else arg_domains)
  unfolding resolve_internal_participant_domains
  has-resolve_internal_participant_domains d [] [] = has-normalize_internal_participant_domains d []
  has-resolve_internal_participant_domains d (s ∷ ss) [] =
      has-normalize_internal_participant_domains d (s ∷ ss)
  has-resolve_internal_participant_domains d ss (a ∷ rest) =
      has-normalize_internal_participant_domains d (a ∷ rest)
