-- ===== src/Sync/Calls/Cursors.antt =====
-- The cursors that a run has not seen yet.
use gongcli_mcp.Prelude.{
  ℕ, suc, ◌≤◌, ◌<◌, String, ◌≡◌, ◌==◌, eq_iff, true, false, List, [], ◌∷◌, length, arith,
  if◌then◌else◌,
}
use gongcli_mcp.Prelude.Sets.{has, add, any-add}

-- The cursors of `all` that are not in `seen`.
pub unseen : List String → List String → ℕ
unseen [] seen = 0
unseen (x ∷ all) seen = let rest = unseen all seen in if has x seen then rest else suc rest

unseen-add_le : (k : String) (all seen : List String) → unseen all (add k seen) ≤ unseen all seen
unfolding unseen
unseen-add_le k [] seen = omega arith
unseen-add_le k (x ∷ all) seen =
    ground (arith, unseen-add_le k all seen, any-add (λ s. s == x) k seen)

pub unseen-add_lt :
    (k : String) (all seen : List String)
    → has k all ≡ true
    → has k seen ≡ false
    → unseen all (add k seen) < unseen all seen
unfolding unseen
unseen-add_lt k [] seen h new = cc
unseen-add_lt k (x ∷ all) seen h new = ground (
  arith,
  unseen-add_le k all seen,
  unseen-add_lt k all seen,
  any-add (λ s. s == x) k seen,
  eq_iff x k,
  eq_iff k x,
)

pub unseen_le : (all seen : List String) → unseen all seen ≤ length all
unfolding unseen
unseen_le [] seen = omega arith
unseen_le (x ∷ all) seen = ground (arith, unseen_le all seen)
