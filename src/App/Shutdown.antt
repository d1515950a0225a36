-- ===== src/App/Shutdown.antt =====
-- src/app/shutdown.rs: the object that waits until its handles are gone. `strong` counts the owners
-- of the `Arc`, the object's own handle among them. Dropping a handle is two steps, which those of
-- other threads may come between: the `drop` of the handle, which looks at the count, and the
-- decrement of the count, which Rust does after it.
use pipitor.Base.{
  ℕ, suc, ◌-◌, ◌≤◌, Bool, true, false, ◌||◌, List, [], ◌∷◌, ◌==◌, if◌then◌else◌, ◌≡◌, refl, arith,
  Bool-cases, inl, inr,
}

pub record Shutdown : Type 0 where
  pub strong : ℕ
  -- Whether the task of the last poll waits for the waker.
  pub registered : Bool

-- `Shutdown::poll`: whether it is ready.
unfoldable pub poll : Shutdown → Bool × Shutdown
poll s = if s.strong == 1 then (true, s) else (false, record s { registered = true })

-- `Handle::clone`.
unfoldable pub clone : Shutdown → Shutdown
clone s = record s { strong = suc s.strong }

-- `Handle::drop`: whether it wakes a task, which is then registered no longer.
unfoldable pub drop : Shutdown → Bool × Shutdown
drop s = if s.strong == 2 then (s.registered, record s { registered = false }) else (false, s)

-- The decrement after `drop`.
unfoldable pub release : Shutdown → Shutdown
release s = record s { strong = s.strong - 1 }

pub data Step : Type 0 where
  cloned dropped released : Step

unfoldable pub step : Step → Shutdown → Bool × Shutdown
unfolding clone drop release
step cloned s = (false, clone s)
step dropped s = drop s
step released s = (false, release s)

-- Steps of the handles: whether one of them woke the task that had been registered.
unfoldable pub run : List Step → Shutdown → Bool × Shutdown
unfolding step
run [] s = (false, s)
run (e ∷ es) s = let (woken, s') = step e s in let (later, s'') = run es s' in (woken || later, s'')

-- What the handles do if each drop is over before anything else is done.
pub data Whole : Type 0 where
  cloning dropping : Whole

unfoldable pub steps : List Whole → List Step
steps [] = []
steps (cloning ∷ ws) = cloned ∷ steps ws
steps (dropping ∷ ws) = dropped ∷ released ∷ steps ws

drop-last : (s : Shutdown) → (s.strong == 2) ≡ true → (drop s).0 ≡ s.registered
unfolding drop
drop-last s e = rw e refl

drop-busy : (s : Shutdown) → (s.strong == 2) ≡ false → drop s ≡ (false, s)
unfolding drop
drop-busy s e = rw e refl

wakes :
    (ws : List Whole) (s : Shutdown)
    → 2 ≤ s.strong
    → s.registered ≡ true
    → (run (steps ws) s).1.strong ≡ 1
    → (run (steps ws) s).0 ≡ true
unfolding run steps step clone release
wakes [] s many registered last = absurd (omega (arith, last, many))
wakes (cloning ∷ ws) s many registered last =
    ground (arith, wakes ws (clone s) (omega (arith, many)) registered last)
wakes (dropping ∷ ws) s many registered last = elim (Bool-cases (s.strong == 2)) [
  | inl e ↦ rw (drop-last s e, registered) refl
  | inr e ↦ rw (drop-busy s e) (
      wakes ws (record s { strong = s.strong - 1 }) (ground (arith, many, e)) registered
        (rw (run, drop-busy s e) at last))
]

-- No wakeup is lost as long as drops do not overlap: a poll while there are handles is not ready, and
-- if they are then cloned and dropped in any order until only the object's own is left, the task of
-- the poll has been woken, and the next poll is ready.
pub run-wakes :
    (s : Shutdown) (ws : List Whole)
    → 2 ≤ s.strong
    → (run (steps ws) (poll s).1).1.strong ≡ 1
    → ((poll s).0 ≡ false)
      × ((run (steps ws) (poll s).1).0 ≡ true)
      × ((poll (run (steps ws) (poll s).1).1).0 ≡ true)
unfolding poll
run-wakes s ws many last =
    let busy : (s.strong == 1) ≡ false = ground arith in
    rw busy (
      refl,
      wakes ws (record s { registered = true }) many refl (rw busy at last),
      rw (rw busy at last) refl,
    )
