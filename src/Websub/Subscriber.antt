-- ===== src/Websub/Subscriber.antt =====
-- src/websub/subscriber.rs and `query::expires_at`: the first tick of the scheduler, the function
-- that the scheduler runs, and the stream of the server.
pub mod Schedule
use pipitor.Base.{
  ℕ, ◌+◌, suc, Bool, true, false, not, ◌&&◌, List, [], ◌∷◌, ◌==◌, retain, Option, none, some,
  if◌then◌else◌,
}
use pipitor.Base.Int.{ℤ, pos, negsuc, int_min}
use pipitor.Websub.Callback.{Library}
use pipitor.Websub.Address.{Uri}
use pipitor.Websub.Store.{Db, Active, is_renewed}
use pipitor.Websub.Hub.{Request, Rng, Outcome, done, ◌>>=◌}
use pipitor.Websub.Service.{renew_subscriptions, refresh_time}

unfoldable pub min_with : ℤ → Option ℤ → ℤ
min_with e none = e
min_with e (some f) = int_min e f

-- The first row of `query::expires_at()`, which is in ascending order.
unfoldable pub first_expiry : List Active → Option ℤ
unfolding min_with
first_expiry [] = none
first_expiry (a ∷ rows) = some (min_with a.expires_at (first_expiry rows))

-- `u64::try_from(expires_at).map_or(0, ...)`.
unfoldable pub tick_of : ℕ → ℤ → ℕ
tick_of margin (pos e) = refresh_time margin e
tick_of margin (negsuc e) = 0

unfoldable pub tick_of_row : ℕ → Option ℤ → Option ℕ
unfolding tick_of
tick_of_row margin none = none
tick_of_row margin (some e) = some (tick_of margin e)

-- The first tick of `Subscriber::new`.
unfoldable pub first_tick : ℕ → Db → Option ℕ
unfolding first_expiry tick_of_row
first_tick margin d = tick_of_row margin (first_expiry d.active)

-- The next tick, by the subscriptions that are not being renewed.
unfoldable pub next_tick : ℕ → Db → Option ℕ
unfolding first_expiry tick_of_row
next_tick margin d =
    tick_of_row margin (first_expiry (retain (λ a. not (is_renewed d a.id)) d.active))

-- What one run of the scheduler's function leaves.
pub record Ran : Type 0 where
  pub requests : List Request
  pub tick : Option ℕ
  pub db : Db

-- The function that `Subscriber::new` hands to the scheduler.
unfoldable pub run_scheduled : Library → Uri → ℕ → ℕ → (ℕ → Rng) → Db → Outcome Ran
run_scheduled b callback margin now rng d = do
  (requests, d') ← renew_subscriptions b callback margin now rng d
  done (record { requests = requests; tick = next_tick margin d'; db = d' })

-- What the listener yields while it is ready: connections, and then the end, an error, or nothing.
pub data Incoming (E : Type 0) : Type 0 where
  connection : Incoming E → Incoming E
  ended : Incoming E
  failed : E → Incoming E
  idle : Incoming E

pub data Poll {ℓ} (A : Type ℓ) : Type ℓ where
  ready : A → Poll A
  pending : Poll A

pub data Accepted (E : Type 0) : Type 0 where
  done_accepting : ℕ → Accepted E
  waiting : ℕ → Accepted E
  error : E → Accepted E

-- An item of the stream: an error of the listener, or an update.
pub data Item (E F : Type 0) : Type 0 where
  failure : E → Item E F
  update : F → Item E F

-- `accept_all`, with the number of connections that it serves.
unfoldable pub accept_all : {E : Type 0} → ℕ → Incoming E → Accepted E
accept_all n (connection rest) = accept_all (suc n) rest
accept_all n ended = done_accepting n
accept_all n (failed e) = error e
accept_all n idle = waiting n

module _ {E F : Type 0} where
  poll_rx : Bool → ℕ → Poll (Option F) → Poll (Option (Item E F))
  poll_rx incoming_done strong_count (ready none) = ready none
  poll_rx incoming_done strong_count (ready (some f)) = ready (some (update f))
  poll_rx incoming_done strong_count pending =
      if incoming_done && strong_count == 1 then ready none else pending

  poll_accepted : Accepted E → ℕ → Poll (Option F) → Poll (Option (Item E F))
  unfolding poll_rx
  poll_accepted (error e) services rx = ready (some (failure e))
  poll_accepted (done_accepting n) services rx = poll_rx true (services + n) rx
  poll_accepted (waiting n) services rx = poll_rx false (services + n) rx

  -- `services` counts the owners of the service before the poll, and each connection is one more.
  unfoldable pub poll_next : Incoming E → ℕ → Poll (Option F) → Poll (Option (Item E F))
  unfolding accept_all poll_accepted
  poll_next incoming services rx = poll_accepted (accept_all 0 incoming) services rx
