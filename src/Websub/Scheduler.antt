-- ===== src/Websub/Scheduler.antt =====
-- src/websub/subscriber/scheduler.rs and `util::time::instant_from_unix`: the timer that runs the
-- renewals.
-- An `Instant` is a number of nanoseconds from a point before the Unix epoch, so that
-- `instant_from_unix` never goes below 0. The state is the handle's atomic `next_tick` (seconds
-- since the epoch, `u64::MAX` for none), its waker's flag, and the deadline of the timer.
pub mod Ticks
use pipitor.Base.{
  ℕ, ◌+◌, ◌-◌, ◌*◌, ◌^◌, ◌≤◌, Bool, true, false, not, Option, none, some, ◌==◌, ltb, leb, min,
  if◌then◌else◌,
}

-- The clocks at the time of a call.
pub record Clock : Type 0 where
  pub instant_now : ℕ
  pub now_unix : ℕ

abbrev pub nanos : ℕ → ℕ
nanos secs = secs * 1_000_000_000

-- Of a Unix time in nanoseconds.
unfoldable pub instant_from_unix : Clock → ℕ → ℕ
instant_from_unix c unix =
    if ltb c.now_unix unix
    then c.instant_now + (unix - c.now_unix)
    else c.instant_now - (c.now_unix - unix)

abbrev pub u64_max : ℕ
u64_max = 2 ^ 64 - 1

pub record Scheduler : Type 0 where
  -- The handle's fields. `alive` is whether the handle's `Arc` can still be upgraded.
  pub alive : Bool
  pub next_tick : ℕ
  pub woken : Bool
  -- The scheduler's timer.
  pub delay : Option ℕ

abbrev pub first_tick_or : Option ℕ → ℕ
first_tick_or none = u64_max
first_tick_or (some t) = t

-- `Handle::decode_next_tick`.
unfoldable pub decode_next_tick : Clock → ℕ → Option ℕ
decode_next_tick c next_tick =
    if next_tick == u64_max then none else some (instant_from_unix c (nanos next_tick))

-- `Handle::new` and `Scheduler::new`.
unfoldable pub new : Clock → Option ℕ → Scheduler
new c first_tick = record {
  alive = true;
  next_tick = first_tick_or first_tick;
  woken = false;
  delay = decode_next_tick c (first_tick_or first_tick);
}

-- `Handle::hasten`.
unfoldable pub hasten : ℕ → Scheduler → Scheduler
hasten next_tick s =
    if ltb next_tick s.next_tick
    then record s { next_tick = next_tick; woken = true }
    else record s { next_tick = min s.next_tick next_tick }

pub data Poll : Type 0 where
  ready pending : Poll

-- The result of a poll, the state after it, and whether `get_next_tick` was called.
pub record Polled : Type 0 where
  pub result : Poll
  pub state : Scheduler
  pub ran : Bool

-- The deadline that a poll goes by: the timer's or the next tick's, whichever is earlier.
unfoldable pub rearm : Option ℕ → Option ℕ → Option ℕ
rearm none none = none
rearm none (some tick) = some tick
rearm (some deadline) none = some deadline
rearm (some deadline) (some tick) = if ltb tick deadline then some tick else some deadline

-- What follows a call of `get_next_tick`.
unfoldable pub reset : Clock → Option ℕ → Scheduler → Scheduler
reset c none s = record s { next_tick = u64_max; delay = none }
reset c (some tick) s = record s {
  next_tick = tick;
  delay = some (instant_from_unix c (nanos tick));
}

unfoldable pub fire : Clock → Option ℕ → Option ℕ → Scheduler → Polled
unfolding reset
fire c tick none s = record { result = pending; state = s; ran = false }
fire c tick (some deadline) s =
    if leb deadline c.instant_now
    then record { result = pending; state = reset c tick s; ran = true }
    else record { result = pending; state = record s { delay = some deadline }; ran = false }

-- `tick` is what `get_next_tick` returns if it is called. `woken` is cleared: the executor
-- polls a task that was woken, and counts later wakes anew.
unfoldable pub poll : Clock → Option ℕ → Scheduler → Polled
unfolding fire rearm decode_next_tick
poll c tick s =
    if s.alive
    then fire c tick (rearm s.delay (decode_next_tick c s.next_tick)) (record s { woken = false })
    else record { result = ready; state = s; ran = false }
