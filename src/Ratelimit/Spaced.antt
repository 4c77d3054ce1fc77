-- ===== src/Ratelimit/Spaced.antt =====
-- Calls through a limiter are spaced.
use gongcli_mcp.Prelude.{
  ℕ, ◌+◌, ◌-◌, ◌≤◌, ◌<◌, ◌≡◌, refl, ◌⊎◌, false, Option, none, some, List, [], ◌∷◌, nat_eq, arith,
  Bool-cases, inl, inr,
}
use gongcli_mcp.Ratelimit.{
  Limiter, next_or_now, reserve, Select, fired, interrupted, Call, Returned, returned_nil,
  returned_error, after_select, after_unlock, wait_for, returns,
}

-- The return of a call that has the lock at `now`: nil once its timer has fired, not before the slot
-- and not later behind it than the timer is; nil at once where the slot is then, whatever its select
-- would take; and the error of the context for one that has to wait and is interrupted.
abbrev pub KeepsTo : ℕ → ℕ → Select → Returned → Type 0
KeepsTo now slot (fired late) (returned_nil t) = (slot ≤ t) × (t ≤ slot + late)
KeepsTo now slot (fired late) (returned_error t) = ⊥
KeepsTo now slot (interrupted after) (returned_nil t) = (t ≡ now) × (slot ≡ now)
KeepsTo now slot (interrupted after) (returned_error t) = (now < slot) × (t ≡ now + after)

-- The slot is the first instant that is not before either of these.
abbrev pub IsLater : ℕ → ℕ → ℕ → Type 0
IsLater bound now slot = (bound ≤ slot) × (now ≤ slot) × ((slot ≤ bound) ⊎ (slot ≤ now))

-- Each call has a slot to which its return keeps: the first instant at which the call has the lock and
-- `bound` is reached, and for the next call the bound is the interval behind this slot.
abbrev pub IsSpaced : ℕ → ℕ → List Call → List Returned → Type 0
IsSpaced interval bound [] [] = Unit
IsSpaced interval bound (c ∷ cs) (r ∷ rs) =
    (slot : ℕ) × IsLater bound c.now slot
    × KeepsTo c.now slot c.select r
    × IsSpaced interval (slot + interval) cs rs
IsSpaced interval bound _ _ = ⊥

-- The instant from which the limiter is free: the zero time is before all others.
abbrev pub free_from : Option ℕ → ℕ
free_from none = 0
free_from (some next) = next

next_or_now-IsLater : (o : Option ℕ) (now : ℕ) → IsLater (free_from o) now (next_or_now o now)
unfolding next_or_now
next_or_now-IsLater none now = (omega arith, omega arith, inr (omega arith))
next_or_now-IsLater (some next) now = ground arith

KeepsTo-after_select :
    (now slot : ℕ) (s : Select) → now < slot → KeepsTo now slot s (after_select now (slot - now) s)
unfolding after_select
KeepsTo-after_select now slot (fired late) h = (omega arith, omega arith)
KeepsTo-after_select now slot (interrupted after) h = (h, refl)

KeepsTo-returned_nil :
    (now slot : ℕ) (s : Select) → now ≡ slot → KeepsTo now slot s (returned_nil now)
KeepsTo-returned_nil now slot (fired late) h = (omega arith, omega arith)
KeepsTo-returned_nil now slot (interrupted after) h = (refl, omega arith)

KeepsTo-after_unlock :
    (c : Call) (slot : ℕ)
    → c.now ≤ slot
    → KeepsTo c.now slot c.select (after_unlock c (slot - c.now))
unfolding after_unlock
KeepsTo-after_unlock c slot h = elim (Bool-cases (nat_eq (slot - c.now) 0)) [
  | inl now ↦ rw now (KeepsTo-returned_nil c.now slot c.select (ground arith))
  | inr later ↦ rw later (KeepsTo-after_select c.now slot c.select (ground arith))
]

module _ (interval : ℕ) (positive : nat_eq interval 0 ≡ false) where
  returns_from :
      (o : Option ℕ) (cs : List Call)
      → IsSpaced interval
          (free_from o)
          cs
          (returns (some (record { interval = interval; next = o })) cs)
  unfolding returns wait_for reserve
  returns_from o [] = tt
  returns_from o (c ∷ cs) =
      let slot = next_or_now o c.now in
      let later = next_or_now-IsLater o c.now in
      rw (positive, returns, wait_for, reserve)
        (slot, later, KeepsTo-after_unlock c slot later.1, returns_from (some (slot + interval)) cs)

-- Whatever the instants at which calls come, however late their timers fire and whichever of them are
-- cancelled, calls through a limiter with a positive interval have slots in the order in which they
-- get the lock, each the first instant at which the call has the lock and that is the interval behind
-- the slot before, or, for the first call, at which the limiter is free. A call returns nil not before
-- its slot, and behind it no later than its timer; one that has to wait and is cancelled returns an
-- error and keeps its slot.
pub returns-IsSpaced :
    (l : Limiter) (cs : List Call)
    → 0 < l.interval
    → IsSpaced l.interval (free_from l.next) cs (returns (some l) cs)
returns-IsSpaced l cs h = returns_from l.interval (ground arith) l.next cs
