-- ===== src/Websub/Service.antt =====
-- src/websub/subscriber/service.rs: the state of the subscriber's server is the database; a
-- spawned request is returned. Times are seconds since the Unix epoch, in `u64`.
-- The parsers of `serde_urlencoded`, `mime` and the feeds, the HMAC and the clock are arguments.
pub mod Renewal
pub mod Intent
pub mod Flow
pub mod Call
use pipitor.Base.{
  ℕ, ◌+◌, ◌-◌, ◌%◌, ◌^◌, min, String, Bool, true, false, not, ◌&&◌, List, [], ◌∷◌, ◌==◌, str_eq,
  ltb, if◌then◌else◌, any, retain, find, Option, none, some,
}
use pipitor.Base.Int.{ℤ, pos, int_leb}
use pipitor.Websub.Callback.{Library}
use pipitor.Websub.Address.{Uri}
use pipitor.Websub.Store.{
  Db, Subscription, Active, Renewing, is_active, is_renewed, delete_subscriptions, delete_pending,
  insert_active,
}
use pipitor.Websub.Hub.{
  Request, Rng, Outcome, done, panic, starved, ◌>>=◌, unwrap, after, renew, unsubscribe,
}

-- Deletes the subscriptions whose intent was never verified.
unfoldable pub remove_dangling_subscriptions : Db → Db
remove_dangling_subscriptions d = delete_subscriptions (λ s. not (is_active d s.id)) d

-- `expires_at - self.renewal_margin` in `u64`, which wraps in a release build.
unfoldable pub refresh_time : ℕ → ℕ → ℕ
refresh_time margin expires_at = (expires_at + 2 ^ 64 - margin) % 2 ^ 64

-- The subscriptions with an active row that expires by `threshold` and with no renewal under way.
abbrev pub expires_by : ℕ → Db → ℕ → Bool
expires_by threshold d i = any (λ a. a.id == i && int_leb a.expires_at (pos threshold)) d.active

unfoldable pub expiring : ℕ → Db → List Subscription
expiring threshold d =
    retain (λ s. expires_by threshold d s.id && not (is_renewed d s.id)) d.subscriptions

pub data Verify : Type 0 where
  subscribes : String → String → ℕ → Verify
  unsubscribes : String → String → Verify

pub record Response : Type 0 where
  pub status : ℕ
  pub body : String

abbrev pub status_not_found : Response
status_not_found = record { status = 404; body = "" }

-- What `verify_intent` leaves: the response, the time that the scheduler is hastened to, the
-- requests that were spawned, and the database.
pub record Verified : Type 0 where
  pub response : Response
  pub hasten : Option ℕ
  pub requests : List Request
  pub db : Db

-- `now.saturating_add(lease).try_into().unwrap_or(i64::max_value())`.
unfoldable pub expiry : ℕ → ℕ → ℕ
expiry now lease =
    let sum = min (now + lease) (2 ^ 64 - 1) in if ltb sum (2 ^ 63) then sum else 2 ^ 63 - 1

-- `row(topic)` has a row.
abbrev pub has_row : Db → ℕ → String → Bool
has_row d id topic = any (λ s. s.id == id && str_eq s.topic topic) d.subscriptions

-- An answer that leaves everything else alone.
abbrev pub answered : Response → Db → Verified
answered r d = record { response = r; hasten = none; requests = []; db = d }

module _ (b : Library) (callback : Uri) where
  unfoldable pub renew_all : (ℕ → Rng) → List Subscription → Db → Outcome (List Request × Db)
  renew_all rng [] d = done ([], d)
  renew_all rng (s ∷ rows) d = do
    (r, d') ← renew b callback s.id s.hub s.topic (rng s.id) d
    after (r ∷ []) (renew_all rng rows d')

  -- `rng` holds the draws for the renewal of each id.
  unfoldable pub renew_subscriptions : ℕ → ℕ → (ℕ → Rng) → Db → Outcome (List Request × Db)
  unfolding expiring renew_all
  renew_subscriptions margin now rng d =
      let threshold = (now + margin + 1) % 2 ^ 64 in
      if ltb threshold (2 ^ 63) then renew_all rng (expiring threshold d) d else panic

  -- The old subscription goes if `id` was created by a renewal.
  unfoldable pub remove_old : ℕ → String → Db → Outcome (List Request × Db)
  remove_old id topic d = elim (find (λ r. r.new == id) d.renewing) [
    | none ↦ done ([], d)
    | some r ↦ elim (find (λ s. s.id == id) d.subscriptions) [
      | none ↦ panic
      | some s ↦ do
        (request, d') ← unsubscribe b callback r.old s.hub topic d
        done (request ∷ [], d')
    ]
  ]

  unfoldable pub accept : ℕ → ℕ → ℕ → String → String → ℕ → Db → Outcome Verified
  unfolding remove_old expiry refresh_time
  accept margin now id topic challenge lease d = do
    let expires_at = expiry now lease
    (requests, d') ← remove_old id topic d
    d'' ←
        unwrap
          (insert_active (record { id = id; expires_at = pos expires_at }) (delete_pending id d'))
    done (record {
      response = record { status = 200; body = challenge };
      hasten = some (refresh_time margin expires_at);
      requests = requests;
      db = d'';
    })

  -- `query` is what `serde_urlencoded` makes of the query part.
  unfoldable pub verify_intent : ℕ → ℕ → ℕ → Option Verify → Db → Outcome Verified
  unfolding accept
  verify_intent margin now id none d = done (answered status_not_found d)
  verify_intent margin now id (some (Verify.subscribes topic challenge lease)) d =
      if has_row d id topic && not (is_active d id)
      then accept margin now id topic challenge lease d
      else done (answered status_not_found d)
  verify_intent margin now id (some (Verify.unsubscribes topic challenge)) d =
      if not (has_row d id topic)
      then done (answered (record { status = 200; body = challenge }) d)
      else done (answered status_not_found d)
