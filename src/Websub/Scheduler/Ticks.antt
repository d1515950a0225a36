-- ===== src/Websub/Scheduler/Ticks.antt =====
-- When the scheduler runs its function.
use pipitor.Base.{
  ℕ, ◌≤◌, ◌<◌, true, ◌||◌, Option, none, some, ltb, leb, min, ◌≡◌, ◌≢◌, ◌↔◌, refl, arith, ◌⊎◌, inl,
  inr, Bool-cases, leb→le,
}
use pipitor.Websub.Scheduler.{
  Clock, nanos, instant_from_unix, u64_max, Scheduler, decode_next_tick, hasten, rearm, fire, poll,
}

-- The clocks are sound: instants are counted from before the epoch.
abbrev pub IsClock : Clock → Type 0
IsClock c = c.now_unix ≤ c.instant_now

-- An instant of a Unix time has passed exactly when that time has.
pub instant_from_unix-le_now_iff :
    (c : Clock) (unix : ℕ)
    → IsClock c
    → (instant_from_unix c unix ≤ c.instant_now) ↔ (unix ≤ c.now_unix)
unfolding instant_from_unix
instant_from_unix-le_now_iff c unix h = ground arith

-- The function is due: the timer's deadline or the next tick has passed.
abbrev pub IsDue : Clock → Option ℕ → ℕ → Type 0
IsDue c delay next_tick =
    ((deadline : ℕ) × (delay ≡ some deadline) × (deadline ≤ c.instant_now))
    ⊎ ((next_tick ≢ u64_max) × (nanos next_tick ≤ c.now_unix))

fire_iff :
    (c : Clock) (tick delay : Option ℕ) (next_tick : ℕ) (s : Scheduler)
    → IsClock c
    → ((fire c tick (rearm delay (decode_next_tick c next_tick)) s).ran ≡ true)
      ↔ IsDue c delay next_tick
unfolding fire rearm decode_next_tick
fire_iff c tick none n s h =
    let passed = instant_from_unix-le_now_iff c (nanos n) h in
    (λ r. inr (ground (arith, passed)), λ d. ground (arith, passed))
fire_iff c tick (some deadline) n s h =
    let passed = instant_from_unix-le_now_iff c (nanos n) h in
    (
      λ r. elim (Bool-cases (leb deadline c.instant_now)) [
        | inl e ↦ inl (deadline, refl, leb→le _ _ e)
        | inr e ↦ inr (ground (arith, passed))
      ],
      λ d. ground (arith, passed),
    )

-- A poll calls the function exactly when it is due.
poll-ran_iff :
    (c : Clock) (tick : Option ℕ) (s : Scheduler)
    → IsClock c
    → s.alive ≡ true
    → ((poll c tick s).ran ≡ true) ↔ IsDue c s.delay s.next_tick
unfolding poll
poll-ran_iff c tick s h a = rw a (fire_iff c tick s.delay s.next_tick _ h)

-- `hasten` moves the next tick to the given time if that is earlier, and wakes the scheduler then;
-- the timer is left to the next poll.
pub hasten_lem :
    (t : ℕ) (s : Scheduler)
    → ((hasten t s).next_tick ≡ min s.next_tick t)
      × ((hasten t s).woken ≡ (ltb t s.next_tick || s.woken))
      × ((hasten t s).delay ≡ s.delay)
      × ((hasten t s).alive ≡ s.alive)
unfolding hasten
hasten_lem t s = (ground arith, ground arith, ground arith, ground arith)

-- A tick that the scheduler was hastened to is not missed: polled at or after it, the scheduler
-- calls the function.
pub poll-hasten :
    (c : Clock) (tick : Option ℕ) (t : ℕ) (s : Scheduler)
    → IsClock c
    → s.alive ≡ true
    → t < u64_max
    → nanos t ≤ c.now_unix
    → (poll c tick (hasten t s)).ran ≡ true
unfolding hasten
poll-hasten c tick t s h a b due =
    (poll-ran_iff c tick (hasten t s) h (ground arith)).1 (inr (ground arith, ground arith))
