-- ===== src/Gateway/Server/Isolation.antt =====
-- What the upstream server sees of a client's headers.
use gongcli_mcp.Prelude.{
  String, ◌≡◌, ◌≢◌, ◌⊎◌, refl, ◌∙◌, ap, ◌==◌, eq_iff, false, Option, none, some, List, [], ◌∷◌,
  ◌++◌, append-nil, arith, if◌then◌else◌, Bool-cases, inl, inr,
}
use gongcli_mcp.Prelude.Sets.{has}
use gongcli_mcp.Text.{cat}
use gongcli_mcp.Text.Trim.{is_nil_iff}
use gongcli_mcp.Gateway.Config.{Config}
use gongcli_mcp.Gateway.Auth.{Principal}
use gongcli_mcp.Gateway.Server.{
  Headers, Request, set_x_forwarded, set_forwarded_for, forwarded_for, own_headers, header_values,
  header_del, header_set, tagged, copy_headers, upstream_names, allowed_upstream_headers,
  principal_label, rewrite_headers,
}

header_values-append :
    (n : String) (hs ks : Headers)
    → header_values n (hs ++ ks) ≡ header_values n hs ++ header_values n ks
unfolding header_values
header_values-append n [] ks = refl
header_values-append n ((k, v) ∷ hs) ks = ground (arith, header_values-append n hs ks)

header_values-tagged :
    (n name : String) (vs : List String)
    → header_values n (tagged name vs) ≡ (if name == n then vs else [])
unfolding header_values tagged
header_values-tagged n name [] = ground arith
header_values-tagged n name (v ∷ vs) = ground (arith, header_values-tagged n name vs)

header_values-header_del :
    (n name : String) (hs : Headers)
    → header_values n (header_del name hs) ≡ (if name == n then [] else header_values n hs)
unfolding header_values header_del
header_values-header_del n name [] = ground arith
header_values-header_del n name ((k, v) ∷ hs) =
    ground (arith, header_values-header_del n name hs, eq_iff k name, eq_iff k n, eq_iff name n)

header_values-header_set :
    (n name value : String) (hs : Headers)
    → header_values n (header_set name value hs)
      ≡ (if name == n then value ∷ [] else header_values n hs)
unfolding header_values header_set
header_values-header_set n name value hs = ground (arith, header_values-header_del n name hs)

copy_headers_of_missing :
    (n : String) (names : List String) (hs : Headers)
    → has n names ≡ false
    → header_values n (copy_headers names hs) ≡ []
unfolding copy_headers
copy_headers_of_missing n [] hs h = unfold header_values in refl
copy_headers_of_missing n (name ∷ names) hs h = ground (
  arith,
  header_values-append n (tagged name (header_values name hs)) (copy_headers names hs),
  header_values-tagged n name (header_values name hs),
  copy_headers_of_missing n names hs,
)

-- No name stands twice in the list.
abbrev AreDistinct : List String → Type 0
AreDistinct [] = Unit
AreDistinct (name ∷ names) = (has name names ≡ false) × AreDistinct names

header_values-copy_headers :
    (n : String) (names : List String) (hs : Headers)
    → AreDistinct names
    → header_values n (copy_headers names hs) ≡ (if has n names then header_values n hs else [])
unfolding copy_headers
header_values-copy_headers n [] hs h = unfold header_values in refl
header_values-copy_headers n (name ∷ names) hs (fresh, h) =
    let parts : header_values n (tagged name (header_values name hs) ++ copy_headers names hs)
        ≡ (if name == n then header_values name hs else [])
          ++ header_values n (copy_headers names hs) =
      header_values-append n (tagged name (header_values name hs)) (copy_headers names hs)
      ∙ ap (λ vs. vs ++ header_values n (copy_headers names hs))
          (header_values-tagged n name (header_values name hs)) in
    elim (Bool-cases (name == n)) [
      | inl same ↦
          let e = (eq_iff name n).0 same in
          let absent = copy_headers_of_missing n names hs (rw (← e) fresh) in
          rw same (parts ∙ rw (same, absent) (append-nil _ ∙ ap (λ k. header_values k hs) e))
      | inr other ↦ rw other (parts ∙ rw other (header_values-copy_headers n names hs h))
    ]

-- The address of the connection, where it has one.
unfoldable pub ip_values : Option String → List String
ip_values none = []
ip_values (some ip) = ip ∷ []

header_values-set_forwarded_for :
    (name : String) (ip : Option String) (hs : Headers)
    → header_values "X-Forwarded-For" hs ≡ []
    → header_values name (set_forwarded_for ip hs)
      ≡ (if "X-Forwarded-For" == name then ip_values ip else header_values name hs)
unfolding set_forwarded_for forwarded_for ip_values
header_values-set_forwarded_for name none hs h = header_values-header_del name "X-Forwarded-For" hs
header_values-set_forwarded_for name (some ip) hs h =
    rw h (header_values-header_set name "X-Forwarded-For" ip hs)

-- The email of a principal, or else its subject, or else the word unknown.
abbrev pub IsLabel : Principal → String → Type 0
IsLabel p label =
    ((p.email ≢ "") × (label ≡ p.email))
    ⊎ ((p.email ≡ "") × (p.subject ≢ "") × (label ≡ p.subject))
    ⊎ ((p.email ≡ "") × (p.subject ≡ "") × (label ≡ "unknown"))

principal_label-IsLabel : (p : Principal) → IsLabel p (principal_label p)
unfolding principal_label
principal_label-IsLabel p = ground (arith, is_nil_iff p.email, is_nil_iff p.subject)

-- The values of the headers that the code itself sets or passes on.
abbrev pub own_values : Config → String → Headers → String → List String
own_values cfg label hs name =
    if "X-Gongctl-Principal" == name
    then label ∷ []
    else if "Authorization" == name
    then cat "Bearer " cfg.internal_token ∷ []
    else if has name upstream_names
    then header_values name hs
    else []

header_values-own_headers :
    (cfg : Config) (p : Principal) (hs : Headers) (name : String)
    → header_values name (own_headers cfg p hs) ≡ own_values cfg (principal_label p) hs name
unfolding own_headers allowed_upstream_headers
header_values-own_headers cfg p hs name = ground (
  arith,
  header_values-header_set name "X-Gongctl-Principal" (principal_label p)
      (header_set "Authorization" (cat "Bearer " cfg.internal_token) (allowed_upstream_headers hs)),
  header_values-header_set name "Authorization" (cat "Bearer " cfg.internal_token)
      (allowed_upstream_headers hs),
  header_values-copy_headers name upstream_names hs
      (refl, (refl, (refl, (refl, (refl, (refl, tt)))))),
)

-- Whatever the client sends, the rewritten request has the internal token as its one Authorization
-- value, the authenticated principal's label as its one X-Gongctl-Principal value, which is its email,
-- or else its subject, or else unknown, and the client's values of the six allowed headers. X-Forwarded-For, -Host and -Proto have one value each, the
-- address of the connection (no value where it has none), the host that the client asked for and the
-- scheme of the connection, whatever values the client sent; no other header has a value.
pub rewrite_headers-isolated :
    (cfg : Config) (p : Principal) (r : Request) (name : String)
    → (label : String) × IsLabel p label
      × (header_values name (rewrite_headers cfg p r) ≡ (
          if "X-Forwarded-Proto" == name
          then (if r.tls then "https" else "http") ∷ []
          else if "X-Forwarded-Host" == name
          then r.host ∷ []
          else if "X-Forwarded-For" == name
          then ip_values r.remote_ip
          else own_values cfg label r.headers name))
unfolding rewrite_headers set_x_forwarded
rewrite_headers-isolated cfg p r name =
    let own = own_headers cfg p r.headers in
    let proto : String = if r.tls then "https" else "http" in
    (
      principal_label p,
      principal_label-IsLabel p,
      ground (
        arith,
        header_values-header_set name "X-Forwarded-Proto" proto
            (header_set "X-Forwarded-Host" r.host (set_forwarded_for r.remote_ip own)),
        header_values-header_set name "X-Forwarded-Host" r.host (set_forwarded_for r.remote_ip own),
        header_values-set_forwarded_for name r.remote_ip own
            (header_values-own_headers cfg p r.headers "X-Forwarded-For"),
        header_values-own_headers cfg p r.headers name,
      ),
    )
