-- ===== src/Gong/Client/Delays.antt =====
-- The delays between two attempts.
use Prim.Native.Nat.{min}
use gongcli_mcp.Prelude.{ℕ, zero, suc, ◌*◌, ◌^◌, ◌≤◌, ◌≡◌, subst, ◌⊎◌, inl, inr, arith}
use gongcli_mcp.Gong.Client.{no_header, second, exponential_backoff, retry_backoff}

-- Whether the whole seconds fit below the limit, min written out.
abbrev pub capped_seconds : ℕ → ℕ
capped_seconds attempt = min (2 ^ attempt) 30 * second

abbrev UpTo : (ℕ → Type 0) → ℕ → Type 0
UpTo P zero = P 0
UpTo P (suc n) = P (suc n) × UpTo P n

le_or_suc : (m n : ℕ) → m ≤ suc n → (m ≡ suc n) ⊎ (m ≤ n)
le_or_suc m n h = ground arith

UpTo-at : (P : ℕ → Type 0) (n : ℕ) → UpTo P n → (m : ℕ) → m ≤ n → P m
UpTo-at P zero h m le = let e : 0 ≡ m = omega arith in subst P e h
UpTo-at P (suc n) (p, h) m le = elim (le_or_suc m n le) [
  | inl e ↦ let e' : suc n ≡ m = omega arith in subst P e' p
  | inr lt ↦ UpTo-at P n h m lt
]

IsCapped : ℕ → Type 0
IsCapped attempt = exponential_backoff attempt ≡ capped_seconds attempt

all-IsCapped : UpTo IsCapped 33
unfolding IsCapped exponential_backoff
all-IsCapped = ground arith

-- Up to attempt 33, with no Retry-After header, the delay is 2 to the power of the attempt in
-- seconds, 30 seconds at most.
pub retry_backoff-capped :
    (attempt : ℕ) → attempt ≤ 33 → retry_backoff no_header attempt ≡ capped_seconds attempt
unfolding retry_backoff IsCapped
retry_backoff-capped attempt h = UpTo-at IsCapped 33 all-IsCapped attempt h
