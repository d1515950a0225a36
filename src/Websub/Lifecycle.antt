-- ===== src/Websub/Lifecycle.antt =====
-- src/websub: the life of the subscriber over all its operations, in any order. The server, the
-- scheduler, a discovery and the commands run beside each other; each operation below is one
-- transaction or one statement of the source, or a row of these in one task. An operation that
-- panics at a hub that is no URI is a step too, with the tables and the requests that it leaves.
pub mod Effects
pub mod Endings
pub mod Crashes
pub mod Pushes
pub mod Sound
pub mod Phases
use pipitor.Base.{
  ℕ, String, true, List, [], ◌∷◌, ◌++◌, ◌==◌, Option, none, some, if◌then◌else◌, ◌≡◌, All, has,
}
use mathlib.Core.List.{Memᴰ}
use pipitor.Websub.Callback.{Library}
use pipitor.Websub.Address.{Uri, make_callback}
use pipitor.Websub.Store.{Db, Subscription, is_active, IsValid}
use pipitor.Websub.Hub.{
  Form, Request, Rng, Outcome, done, crashed, panic, starved, subscribe, unsubscribe,
  unsubscribe_all,
}
use pipitor.Websub.Service.{
  Verify, Verified, verify_intent, renew_subscriptions, remove_dangling_subscriptions,
}

-- The tables, the requests that were sent, and the ids whose subscription a hub has confirmed.
pub record World : Type 0 where
  pub db : Db
  pub sent : List Request
  pub confirmed : List ℕ

-- An intent to subscribe that was answered with 200.
abbrev pub note : ℕ → Option Verify → Verified → List ℕ → List ℕ
note id (some (Verify.subscribes topic challenge lease)) v ids =
    if v.response.status == 200 then id ∷ ids else ids
note id (some (Verify.unsubscribes topic challenge)) v ids = ids
note id none v ids = ids

-- No tables' rows, and nothing sent.
abbrev pub start : World
start = record {
  db = record { subscriptions = []; active = []; pending = []; renewing = [] };
  sent = [];
  confirmed = [];
}

-- What an operation leaves, whether it returns or panics at a hub: the requests and the tables.
abbrev pub left : {A : Type 0} → (A → List Request × Db) → Outcome A → Option (List Request × Db)
left f (done a) = some (f a)
left f (crashed rs d) = some (rs, d)
left f panic = none
left f starved = none

abbrev pub one : Request × Db → List Request × Db
one p = (p.0 ∷ [], p.1)

abbrev pub many : List Request × Db → List Request × Db
many p = p

module _ (b : Library) (callback : Uri) where
  pub data Step (w : World) : World → Type 0 where
    subscribes :
        (hub topic : String) (rng : Rng) (rs : List Request) (d : Db)
        → left one (subscribe b callback hub topic rng w.db) ≡ some (rs, d)
        → Step w (record w { db = d; sent = rs ++ w.sent })
    verifies :
        (margin now id : ℕ) (q : Option Verify) (v : Verified)
        → verify_intent b callback margin now id q w.db ≡ done v
        → Step w
            (record { db = v.db; sent = v.requests ++ w.sent; confirmed = note id q v w.confirmed })
    verification_crashes :
        (margin now id : ℕ) (q : Option Verify) (rs : List Request) (d : Db)
        → verify_intent b callback margin now id q w.db ≡ crashed rs d
        → Step w (record w { db = d; sent = rs ++ w.sent })
    renews :
        (margin now : ℕ) (rng : ℕ → Rng) (rs : List Request) (d : Db)
        → left many (renew_subscriptions b callback margin now rng w.db) ≡ some (rs, d)
        → Step w (record w { db = d; sent = rs ++ w.sent })
    unsubscribes :
        (id : ℕ) (hub topic : String) (rs : List Request) (d : Db)
        → left one (unsubscribe b callback id hub topic w.db) ≡ some (rs, d)
        → Step w (record w { db = d; sent = rs ++ w.sent })
    leaves :
        (topic : String) (rs : List Request) (d : Db)
        → left many (unsubscribe_all b callback topic w.db) ≡ some (rs, d)
        → Step w (record w { db = d; sent = rs ++ w.sent })
    restarts : Step w (record w { db = remove_dangling_subscriptions w.db })

  pub data Reach : World → Type 0 where
    here : Reach start
    next : {w u : World} → Reach w → Step w u → Reach u

  -- The request that asked for a subscription.
  abbrev pub asks : Subscription → Request
  asks s = record {
    hub = s.hub;
    form = Form.subscribes (make_callback b callback s.id) s.topic s.secret;
  }

  -- A hub that is no URI cannot be asked.
  abbrev pub IsAskedFor : List Request → Subscription → Type 0
  IsAskedFor sent s = b.is_uri s.hub ≡ true → Memᴰ (asks s) sent

  abbrev pub IsAsked : List Request → Db → Type 0
  IsAsked sent d = All (IsAskedFor sent) d.subscriptions

  abbrev pub IsConfirmed : List ℕ → Db → Type 0
  IsConfirmed ids d = (i : ℕ) → is_active d i ≡ true → has (λ j. j) i ids ≡ true

  pub record IsSound (w : World) : Type 0 where
    pub valid : IsValid w.db
    pub asked : IsAsked w.sent w.db
    pub confirmed : IsConfirmed w.confirmed w.db
