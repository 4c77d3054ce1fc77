-- ===== src/Mcp/Calls/Loop.antt =====
-- The loop of the tools against its description: the first rows, up to the limit, of those that are
-- to be shown.
use gongcli_mcp.Prelude.{
  ℕ, zero, suc, String, ◌≤◌, ◌<◌, ◌+◌, ◌≡◌, refl, sym, ap, ◌∙◌, List, [], ◌∷◌, ◌++◌, append_assoc,
  append-nil, All, Any, take, length, length-append, leb, arith, Bool-cases, inl, inr,
}
use gongcli_mcp.Store.{Outcome, error, ok}
use gongcli_mcp.Mcp.Calls.{
  Verdict, bad, hidden, shown, Rows, no_rows, collected, collect, Shown, plain, capped,
  capped_tool_payload, new_capped_tool_result, should_return_cap_envelope,
}

module _ {A : Type 0} where
  keep_shown : Verdict A → List A → List A
  keep_shown (shown a) rest = a ∷ rest
  keep_shown _ rest = rest

  unfoldable pub shown_rows : Shown A → List A
  shown_rows (plain rows) = rows
  shown_rows (capped tool rows returned limit refinements) = rows

  rows_of : Outcome (Rows A) → List A
  rows_of (error e) = []
  rows_of (ok r) = r.rows

  take_append_short : (n : ℕ) (xs ys : List A) → n ≡ length xs → take n (xs ++ ys) ≡ xs
  take_append_short zero [] ys h = refl
  take_append_short zero (x ∷ xs) ys h = absurd (omega arith)
  take_append_short (suc n) [] ys h = absurd (omega arith)
  take_append_short (suc n) (x ∷ xs) ys h =
      ap (λ zs. x ∷ zs) (take_append_short n xs ys (omega arith))

  take_of_long : (n : ℕ) (xs : List A) → length xs ≤ n → take n xs ≡ xs
  take_of_long zero [] h = refl
  take_of_long zero (x ∷ xs) h = absurd (omega arith)
  take_of_long (suc n) [] h = refl
  take_of_long (suc n) (x ∷ xs) h = ap (λ zs. x ∷ zs) (take_of_long n xs (omega arith))

  ok-rows : (r r' : Rows A) → ok r ≡ ok r' → r.rows ≡ r'.rows
  unfolding rows_of
  ok-rows r r' e = ap rows_of e

  shown_result : Outcome (Shown A) → List A
  unfolding shown_rows
  shown_result (error e) = []
  shown_result (ok out) = shown_rows out

  shown_result-capped :
      (tool : String) (limit : ℕ) (refinements : List String) (r : Rows A)
      → shown_result (new_capped_tool_result tool limit refinements (ok r)) ≡ r.rows
  unfolding shown_result new_capped_tool_result shown_rows capped_tool_payload
  shown_result-capped tool limit refinements r =
      elim (Bool-cases (should_return_cap_envelope (length r.rows) limit)) [
        | inl full ↦ rw (full, new_capped_tool_result) refl
        | inr few ↦ rw (few, new_capped_tool_result) refl
      ]

  -- The result shows the rows that the loop collected.
  capped_result-rows :
      (tool : String) (limit : ℕ) (refinements : List String) (r : Outcome (Rows A)) (out : Shown A)
      → new_capped_tool_result tool limit refinements r ≡ ok out
      → (r' : Rows A) × (r ≡ ok r') × (shown_rows out ≡ r'.rows)
  unfolding new_capped_tool_result shown_result
  capped_result-rows tool limit refinements (error text) out e = cc
  capped_result-rows tool limit refinements (ok r) out e =
      (r, refl, sym (ap shown_result e) ∙ shown_result-capped tool limit refinements r)

module _ {A : Type 0} (k : Rows A → Outcome (Rows A)) (rest : List A) (limit : ℕ) (r' : Rows A)
    (after : (r : Rows A)
      → length r.rows < limit
      → k r ≡ ok r'
      → r'.rows ≡ take limit (r.rows ++ rest)) where
  collected-take :
      (r : Rows A) (v : Verdict A)
      → length r.rows < limit
      → collected k limit r v ≡ ok r'
      → r'.rows ≡ take limit (r.rows ++ keep_shown v rest)
  unfolding collected keep_shown
  collected-take r (bad text) few e = cc
  collected-take r hidden few e = after _ few e
  collected-take r (shown a) few e =
      let longer : length (r.rows ++ a ∷ []) ≡ length r.rows + 1 = length-append r.rows (a ∷ []) in
      let same : (r.rows ++ a ∷ []) ++ rest ≡ r.rows ++ a ∷ rest =
        append_assoc r.rows (a ∷ []) rest in
      elim (Bool-cases (leb limit (length (r.rows ++ a ∷ [])))) [
        | inl full ↦
            sym (ok-rows _ r' (rw (full, collected) at e))
            ∙ sym (take_append_short limit (r.rows ++ a ∷ []) rest (ground arith))
            ∙ ap (take limit) same
        | inr more ↦ after _ (ground arith) (rw (more, collected) at e) ∙ ap (take limit) same
      ]

module _ {R A : Type 0} (verdict : R → Verdict A) where
  -- All rows that are to be shown.
  unfoldable pub shown_of : List R → List A
  unfolding keep_shown
  shown_of [] = []
  shown_of (x ∷ xs) = keep_shown (verdict x) (shown_of xs)

  collect-take :
      (limit : ℕ) (xs : List R) (r r' : Rows A)
      → length r.rows < limit
      → collect verdict limit xs r ≡ ok r'
      → r'.rows ≡ take limit (r.rows ++ shown_of xs)
  unfolding collect shown_of
  collect-take limit [] r r' few e =
      sym (ok-rows r r' e)
      ∙ sym (take_of_long limit r.rows (omega arith))
      ∙ ap (take limit) (sym (append-nil r.rows))
  collect-take limit (x ∷ xs) r r' few e =
      collected-take (collect verdict limit xs) (shown_of xs) limit r'
        (λ q short found. collect-take limit xs q r' short found) r (verdict x) few e

  keep_shown-All :
      (P : A → Type 0) (v : Verdict A) (rest : List A)
      → ((a : A) → v ≡ shown a → P a)
      → All P rest
      → All P (keep_shown v rest)
  unfolding keep_shown
  keep_shown-All P (bad e) rest f h = h
  keep_shown-All P hidden rest f h = h
  keep_shown-All P (shown a) rest f h = (f a refl, h)

  -- What holds of every row that is to be shown for one of these holds of all of them.
  pub All-shown_of :
      (P : A → Type 0) (xs : List R)
      → ((x : R) (a : A) → Any (λ y. y ≡ x) xs → verdict x ≡ shown a → P a)
      → All P (shown_of xs)
  unfolding shown_of
  All-shown_of P [] f = tt
  All-shown_of P (x ∷ xs) f =
      keep_shown-All P (verdict x) (shown_of xs) (λ a e. f x a (inl refl) e)
        (All-shown_of P xs (λ y a m e. f y a (inr m) e))

  -- The rows of a tool's result are the first of those that are to be shown.
  pub new_capped_tool_result-take :
      (tool : String) (limit : ℕ) (refinements : List String) (xs : List R) (out : Shown A)
      → 0 < limit
      → new_capped_tool_result tool limit refinements (collect verdict limit xs no_rows) ≡ ok out
      → shown_rows out ≡ take limit (shown_of xs)
  new_capped_tool_result-take tool limit refinements xs out positive e =
      let (r', found, same) =
        capped_result-rows tool limit refinements (collect verdict limit xs no_rows) out e in
      same ∙ collect-take limit xs no_rows r' positive found
