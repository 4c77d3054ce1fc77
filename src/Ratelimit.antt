-- ===== src/Ratelimit.antt =====
-- internal/ratelimit: Limiter.Wait. Instants and durations are nanoseconds; a Limiter that is nil is
-- `none`, and an interval that is not positive is 0. What holds the lock is one step, so that calls
-- from several goroutines are a sequence of steps; which channel the select of a call takes, and
-- when, is given with the call.
pub mod Spaced
mod Tests
use gongcli_mcp.Prelude.{
  ℕ, ◌+◌, ◌-◌, ◌/◌, Option, none, some, List, [], ◌∷◌, ltb, nat_eq, if◌then◌else◌,
}
use gongcli_mcp.Prelude.Int.{ℤ, pos, negsuc}

-- The zero time is `none`.
pub record Limiter : Type 0 where
  pub interval : ℕ
  pub next : Option ℕ

-- if calls <= 0 { calls = 1 }
positive_calls : ℤ → ℕ
positive_calls (pos n) = if nat_eq n 0 then 1 else n
positive_calls (negsuc n) = 1

-- New
pub new_limiter : ℤ → ℕ → Limiter
new_limiter calls per = record { interval = per / positive_calls calls; next = none }

-- l.next, moved to now where it is zero or has passed
next_or_now : Option ℕ → ℕ → ℕ
next_or_now none now = now
next_or_now (some next) now = if ltb next now then now else next

-- Wait under the lock: how long to wait, and the limiter behind it.
pub reserve : Limiter → ℕ → ℕ × Limiter
reserve l now =
    let next = next_or_now l.next now in (next - now, record l { next = some (next + l.interval) })

-- What the select of a call takes: the timer, so many nanoseconds after it is due, or ctx.Done,
-- so many nanoseconds after the call got the lock.
pub data Select : Type 0 where
  fired : ℕ → Select
  interrupted : ℕ → Select

-- A call: the instant at which it has the lock, and what its select takes, if it comes to that.
pub record Call : Type 0 where
  pub now : ℕ
  pub select : Select

-- The return of a call, with the instant of it: nil, or the error of the context.
pub data Returned : Type 0 where
  returned_nil : ℕ → Returned
  returned_error : ℕ → Returned

after_select : ℕ → ℕ → Select → Returned
after_select now wait (fired late) = returned_nil (now + wait + late)
after_select now wait (interrupted after) = returned_error (now + after)

-- Wait without the lock.
after_unlock : Call → ℕ → Returned
unfolding after_select
after_unlock c wait = if nat_eq wait 0 then returned_nil c.now else after_select c.now wait c.select

-- Limiter.Wait
pub wait_for : Option Limiter → Call → Returned × Option Limiter
unfolding after_unlock
wait_for none c = (returned_nil c.now, none)
wait_for (some l) c =
    if nat_eq l.interval 0
    then (returned_nil c.now, some l)
    else (let (wait, l') = reserve l c.now in (after_unlock c wait, some l'))

-- The returns of calls, in the order in which they get the lock.
pub returns : Option Limiter → List Call → List Returned
returns l [] = []
returns l (c ∷ cs) = let (r, l') = wait_for l c in r ∷ returns l' cs
