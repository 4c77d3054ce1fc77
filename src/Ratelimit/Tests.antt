-- ===== src/Ratelimit/Tests.antt =====
-- Four calls at once, the third cancelled, and one later.
use gongcli_mcp.Prelude.{ℕ, ◌≡◌, refl, none, some, List, [], ◌∷◌, arith}
use gongcli_mcp.Prelude.Int.{pos}
use gongcli_mcp.Ratelimit.{
  Limiter, new_limiter, positive_calls, reserve, next_or_now, Select, fired, interrupted, Call,
  returned_nil, returned_error, after_unlock, wait_for, returns,
}
use gongcli_mcp.Ratelimit.Spaced.{IsSpaced, free_from, returns-IsSpaced}

-- Three calls in each second.
abbrev three_each_second : Limiter
three_each_second = record { interval = 333333333; next = none }

limiter_run : new_limiter (pos 3) 1000000000 ≡ three_each_second
unfolding new_limiter positive_calls
limiter_run = refl

abbrev call_at : ℕ → Select → Call
call_at now select = record { now = now; select = select }

abbrev calls : List Call
calls =
    call_at 5 (fired 0)
    ∷ call_at 5 (fired 7)
    ∷ call_at 6 (interrupted 10)
    ∷ call_at 8 (fired 0)
    ∷ call_at 2000000000 (fired 0)
    ∷ []

-- The call that is cancelled keeps its slot, so that the next waits for the one behind it.
returns_run :
    returns (some three_each_second) calls
    ≡ returned_nil 5
      ∷ returned_nil 333333345
      ∷ returned_error 16
      ∷ returned_nil 1000000004
      ∷ returned_nil 2000000000
      ∷ []
unfolding returns wait_for after_unlock reserve next_or_now
returns_run = refl

returns-IsSpaced_example :
    IsSpaced 333333333 (free_from none) calls (returns (some three_each_second) calls)
returns-IsSpaced_example = returns-IsSpaced three_each_second calls (omega arith)
