-- ===== src/Twitter/Interval.antt =====
-- src/twitter/list_timeline/interval.rs: a timer whose handle can put the next tick off. Instants
-- are numbers of nanoseconds, as in src/websub/subscriber/scheduler.rs; `period` is a number of
-- nanoseconds too.
use pipitor.Base.{
  ℕ, ◌+◌, ◌-◌, ◌≤◌, ◌<◌, Bool, true, not, Option, none, some, ◌==◌, ltb, leb, max, if◌then◌else◌,
  ◌≡◌, ◌↔◌, arith,
}
use pipitor.Websub.Scheduler.{Clock, nanos, instant_from_unix}
use pipitor.Websub.Scheduler.Ticks.{IsClock, instant_from_unix-le_now_iff}

pub record Interval : Type 0 where
  -- The handle's fields. `alive` is whether the handle's `Arc` can still be upgraded.
  pub alive : Bool
  pub period : ℕ
  pub next_tick : ℕ
  -- The interval's timer.
  pub deadline : ℕ

pub data Poll : Type 0 where
  finished pending ticked : Poll

-- `Interval::new` with `Handle::new`.
unfoldable pub new : Clock → ℕ → Interval
new c period = record { alive = true; period = period; next_tick = 0; deadline = c.instant_now }

-- `Handle::delay`.
unfoldable pub delay : ℕ → Interval → Interval
delay after i = record i { next_tick = max i.next_tick after }

-- `Handle::decode_next_tick`, whose swap leaves 0.
unfoldable pub decode_next_tick : Clock → ℕ → Option ℕ
decode_next_tick c next_tick =
    if next_tick == 0 then none else some (instant_from_unix c (nanos next_tick))

unfoldable pub put_off : Option ℕ → ℕ → ℕ
put_off none deadline = deadline
put_off (some tick) deadline = if ltb deadline tick then tick else deadline

unfoldable pub poll_next : Clock → Interval → Poll × Interval
unfolding put_off decode_next_tick
poll_next c i =
    if not i.alive
    then (finished, i)
    else let deadline = put_off (decode_next_tick c i.next_tick) i.deadline in
      if leb deadline c.instant_now
      then (ticked, record i { next_tick = 0; deadline = max (deadline + i.period) c.instant_now })
      else (pending, record i { next_tick = 0; deadline = deadline })

-- A live interval ticks exactly when its deadline has passed and, if the handle has been told to
-- wait until some time, that time has passed too.
pub poll_next-ticked_iff :
    (c : Clock) (i : Interval)
    → IsClock c
    → i.alive ≡ true
    → ((poll_next c i).0 ≡ ticked)
      ↔ ((i.deadline ≤ c.instant_now) × (nanos i.next_tick ≤ c.now_unix))
unfolding poll_next put_off decode_next_tick
poll_next-ticked_iff c i h a = ground (arith, instant_from_unix-le_now_iff c (nanos i.next_tick) h)

-- A poll of a live interval before the time that it was put off to does not tick, and neither does
-- a second poll before that time, although the first has cleared it: the deadline has moved. The
-- clocks of instants and of Unix times go on together between the polls.
poll_next-delay :
    (c c' : Clock) (after : ℕ) (i : Interval)
    → IsClock c
    → IsClock c'
    → i.alive ≡ true
    → c.now_unix ≤ c'.now_unix
    → c'.instant_now - c'.now_unix ≡ c.instant_now - c.now_unix
    → c'.now_unix < nanos after
    → let polled = poll_next c (delay after i) in
      (polled.0 ≡ pending) × ((poll_next c' polled.1).0 ≡ pending)
unfolding poll_next put_off decode_next_tick delay instant_from_unix
poll_next-delay c c' after i h h' a later steady early = ground arith
