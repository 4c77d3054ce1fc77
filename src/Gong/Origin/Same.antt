-- ===== src/Gong/Origin/Same.antt =====
-- Requests, and the credentials in them, go to the configured origin alone.
use gongcli_mcp.Prelude.{
  String, ◌≡◌, ◌≢◌, ◌⊎◌, eq_iff, subst, Bool, true, ◌||◌, Option, none, some, arith, Bool-cases,
  inl, inr, eq_refl,
}
use gongcli_mcp.Text.{has_prefix}
use gongcli_mcp.Text.Unicode.{Unicode, lower_text}
use gongcli_mcp.Text.Trim.{is_nil_iff}
use gongcli_mcp.Gong.Origin.{Url, origin_port, same_origin, absolute_url, relative_url, endpoint}

-- The port that a URL names, or else the one of its scheme.
abbrev pub HasPort : Unicode → Url → String → Type 0
HasPort u url p =
    ((url.port ≢ "") × (p ≡ url.port))
    ⊎ ((url.port ≡ "")
        × (((lower_text u url.scheme ≡ "http") × (p ≡ "80"))
            ⊎ ((lower_text u url.scheme ≡ "https") × (p ≡ "443"))
            ⊎ ((lower_text u url.scheme ≢ "http")
                × (lower_text u url.scheme ≢ "https")
                × (p ≡ ""))))

-- Scheme and host are the same up to `equal_fold`, and the ports are one.
pub record HasOrigin (u : Unicode) (equal_fold : String → String → Bool) (url base : Url)
    : Type 0 where
  pub scheme : equal_fold url.scheme base.scheme ≡ true
  pub host : equal_fold url.hostname base.hostname ≡ true
  pub port : (p : String) × HasPort u url p × HasPort u base p

origin_port-HasPort : (u : Unicode) (url : Url) → HasPort u url (origin_port u url)
unfolding origin_port
origin_port-HasPort u url = ground (
  arith,
  is_nil_iff url.port,
  eq_iff (lower_text u url.scheme) "http",
  eq_iff (lower_text u url.scheme) "https",
)

same_origin-HasOrigin :
    (u : Unicode) (equal_fold : String → String → Bool) (url base : Url)
    → same_origin u equal_fold url base ≡ true
    → HasOrigin u equal_fold url base
unfolding same_origin
same_origin-HasOrigin u equal_fold url base h =
    let same : origin_port u base ≡ origin_port u url =
      ground (arith, eq_iff (origin_port u url) (origin_port u base)) in
    record {
      scheme = ground arith;
      host = ground arith;
      port = (
        origin_port u url,
        origin_port-HasPort u url,
        subst (HasPort u base) same (origin_port-HasPort u base),
      );
    }

some-url : (a b : Url) → some a ≡ some b → a ≡ b
some-url a b e = ground arith

module _ (u : Unicode) (equal_fold : String → String → Bool) (parse : String → Option Url)
    (fold_refl : (s : String) → equal_fold s s ≡ true) where
  absolute_url-same_origin :
      (base url : Url) (parsed : Option Url)
      → absolute_url u equal_fold parse base parsed ≡ some url
      → same_origin u equal_fold url base ≡ true
  unfolding absolute_url
  absolute_url-same_origin base url none e = cc
  absolute_url-same_origin base url (some absolute) e =
      elim (Bool-cases (same_origin u equal_fold absolute base)) [
        | inl same ↦
            subst (λ v. same_origin u equal_fold v base ≡ true)
              (some-url absolute url (rw (same, absolute_url) at e)) same
        | inr other ↦ let no = rw (other, absolute_url) at e in cc
      ]

  moved-same_origin :
      (base : Url) (path query : String)
      → same_origin u equal_fold (record base { path = path; raw_query = query }) base ≡ true
  unfolding same_origin origin_port
  moved-same_origin base path query =
      rw (fold_refl base.scheme, fold_refl base.hostname) (eq_refl (origin_port u base))

  relative_url-same_origin :
      (base url : Url) (parsed : Option Url)
      → relative_url u equal_fold parse base parsed ≡ some url
      → same_origin u equal_fold url base ≡ true
  unfolding relative_url
  relative_url-same_origin base url none e = cc
  relative_url-same_origin base url (some relative) e =
      subst (λ v. same_origin u equal_fold v base ≡ true) (some-url _ url e)
        (moved-same_origin base _ _)

endpoint-same_origin :
    (u : Unicode) (equal_fold : String → String → Bool) (parse : String → Option Url)
    (base url : Url) (path : String)
    → ((s : String) → equal_fold s s ≡ true)
    → endpoint u equal_fold parse base path ≡ some url
    → same_origin u equal_fold url base ≡ true
unfolding endpoint
endpoint-same_origin u equal_fold parse base url path fold_refl e =
    elim (Bool-cases (has_prefix path "http://" || has_prefix path "https://")) [
      | inl absolute ↦
          absolute_url-same_origin u equal_fold parse fold_refl base url _
            (rw (absolute, endpoint) at e)
      | inr relative ↦
          relative_url-same_origin u equal_fold parse fold_refl base url _
            (rw (relative, endpoint) at e)
    ]

-- Whatever path is asked for, the URL that a request is sent to has the scheme and the host name of
-- the configured base URL, up to what equal_fold identifies, which is reflexive, and the same port,
-- which is the one that the URL names or else the default of http or https.
pub endpoint-HasOrigin :
    (u : Unicode) (equal_fold : String → String → Bool) (parse : String → Option Url)
    (base url : Url) (path : String)
    → ((s : String) → equal_fold s s ≡ true)
    → endpoint u equal_fold parse base path ≡ some url
    → HasOrigin u equal_fold url base
endpoint-HasOrigin u equal_fold parse base url path fold_refl e =
    same_origin-HasOrigin u equal_fold url base
      (endpoint-same_origin u equal_fold parse base url path fold_refl e)
