-- ===== src/Websub/Hub.antt =====
-- src/websub/hub.rs: the requests to a hub and the rows that they leave.
-- A function that spawns a request returns it. The random numbers of `rand` are arguments, and
-- `Outcome` says when `unwrap` panics and when the given draws do not suffice. A hub that is no URI
-- makes `send_request` panic when the tables have been changed already: `crashed` has these, and the
-- requests that were spawned before.
pub mod Create
use pipitor.Base.{ℕ, ◌/◌, String, List, [], ◌∷◌, str_eq, ◌==◌, retain, if◌then◌else◌, Bool, ◌++◌}
use pipitor.Websub.Callback.{Library}
use pipitor.Websub.Address.{Uri, make_callback}
use pipitor.Websub.Store.{
  Db, Subscription, Renewing, DbError, unique_violation, foreign_key_violation, not_found, Result,
  ok, err, insert_subscription, insert_pending, insert_renewing, delete_subscriptions,
}

pub data Form : Type 0 where
  subscribes : Uri → String → List ℕ → Form
  unsubscribes : Uri → String → Form

-- `POST`ed to `hub`, form-encoded.
pub record Request : Type 0 where
  pub hub : String
  pub form : Form

-- What one call of `create_subscription` draws: the 24 bytes of the secret and the numbers of
-- `next_u64`, in order.
pub record Rng : Type 0 where
  pub bytes : List ℕ
  pub u64s : List ℕ

pub data Outcome {ℓ} (A : Type ℓ) : Type ℓ where
  done : A → Outcome A
  crashed : List Request → Db → Outcome A
  panic : Outcome A
  starved : Outcome A

infixl 5 ◌>>=◌
abbrev pub ◌>>=◌ {ℓ κ} : {A : Type ℓ} {B : Type κ} → Outcome A → (A → Outcome B) → Outcome B
done a >>= f = f a
crashed rs d >>= f = crashed rs d
panic >>= f = panic
starved >>= f = starved

-- With the requests that were spawned before.
abbrev pub after : List Request → Outcome (List Request × Db) → Outcome (List Request × Db)
after sent (done (rs, d)) = done (sent ++ rs, d)
after sent (crashed rs d) = crashed (sent ++ rs) d
after sent panic = panic
after sent starved = starved

abbrev pub unwrap {ℓ} : {A : Type ℓ} → Result A → Outcome A
unwrap (ok a) = done a
unwrap (err e) = panic

-- The loop of `create_subscription`: `row` makes the row of an id, and a taken id is drawn anew.
unfoldable pub insert_drawn : (ℕ → Subscription) → List ℕ → Db → Outcome (ℕ × Db)
insert_drawn row [] d = starved
insert_drawn row (x ∷ xs) d = elim (insert_subscription (row (x / 2)) d) [
  | ok d' ↦ done (x / 2, d')
  | err unique_violation ↦ insert_drawn row xs d
  | err foreign_key_violation ↦ panic
  | err not_found ↦ panic
]

module _ (b : Library) where
  open b use {encode}

  unfoldable pub gen_secret : Rng → List ℕ
  gen_secret rng = encode rng.bytes

  abbrev pub new_row : String → String → Rng → ℕ → Subscription
  new_row hub topic rng id = record { id = id; hub = hub; topic = topic; secret = gen_secret rng }

  unfoldable pub create_subscription : String → String → Rng → Db → Outcome (ℕ × List ℕ × Db)
  create_subscription hub topic rng d = do
    (id, d') ← insert_drawn (new_row hub topic rng) rng.u64s d
    d'' ← unwrap (insert_pending id d')
    done (id, gen_secret rng, d'')

  -- `http::Request::post` makes a request of a hub that is a URI, and `unwrap` panics else.
  abbrev pub send_request : String → Form → Db → Outcome (Request × Db)
  send_request hub form d =
      if b.is_uri hub then done (record { hub = hub; form = form }, d) else crashed [] d

  module _ (callback : Uri) where
    unfoldable pub subscribe : String → String → Rng → Db → Outcome (Request × Db)
    subscribe hub topic rng d = do
      (id, secret, d') ← create_subscription hub topic rng d
      send_request hub (Form.subscribes (make_callback b callback id) topic secret) d'

    unfoldable pub renew : ℕ → String → String → Rng → Db → Outcome (Request × Db)
    renew old hub topic rng d = do
      (id, secret, d') ← create_subscription hub topic rng d
      d'' ← unwrap (insert_renewing (record { old = old; new = id }) d')
      send_request hub (Form.subscribes (make_callback b callback id) topic secret) d''

    unfoldable pub unsubscribe : ℕ → String → String → Db → Outcome (Request × Db)
    unsubscribe id hub topic d =
        send_request hub (Form.unsubscribes (make_callback b callback id) topic)
          (delete_subscriptions (λ s. s.id == id) d)

    -- The iterator makes the requests one by one, once the rows are deleted.
    unfoldable pub send_each : String → List Subscription → Db → Outcome (List Request × Db)
    send_each topic [] d = done ([], d)
    send_each topic (s ∷ rows) d =
        let rest = send_each topic rows d in
        do
          (r, d') ← send_request s.hub (Form.unsubscribes (make_callback b callback s.id) topic) d
          after (r ∷ []) rest

    unfoldable pub unsubscribe_all : String → Db → Outcome (List Request × Db)
    unfolding send_each
    unsubscribe_all topic d =
        send_each topic (retain (λ s. str_eq s.topic topic) d.subscriptions)
          (delete_subscriptions (λ s. str_eq s.topic topic) d)
