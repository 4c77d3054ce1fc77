-- ===== src/Store.antt =====
-- internal/store/sqlite/store.go: the records that more than one part reads.
use gongcli_mcp.Prelude.{String, ◌≡◌, refl, ◌⊎◌, inl, inr}

pub record MissingTranscriptCall : Type 0 where
  pub call_id : String
  pub title : String
  pub started_at : String

-- A Go result with its error, which is its text.
pub data Outcome (A : Type 0) : Type 0 where
  error : String → Outcome A
  ok : A → Outcome A

-- To split on an answer and keep the equation.
pub Outcome-cases :
    {A : Type 0} (o : Outcome A) → ((e : String) × (o ≡ error e)) ⊎ ((a : A) × (o ≡ ok a))
Outcome-cases (error e) = inl (e, refl)
Outcome-cases (ok a) = inr (a, refl)
