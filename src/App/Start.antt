-- ===== src/App/Start.antt =====
-- src/app.rs: `with_http_client` and `init_websub`, which put the application together.
pub mod Cleaned
pub mod Started
use pipitor.Websub.Hub.{Rng, Outcome, done, crashed, starved}
use pipitor.Websub.Store.{Db}
use pipitor.Websub.Subscriber.{run_scheduled}
use pipitor.Base.{[], ◌∷◌, ℕ, String, Bool, true, false, List, Option, none, some}
use pipitor.Manifest.{Manifest, Websub}
use pipitor.Websub.Callback.{Library}
use pipitor.Websub.Address.{Uri, prepare_callback_prefix}
use pipitor.Websub.Service.{remove_dangling_subscriptions}
use pipitor.App.Core.{
  Core, Pool, Rows, Stream, Timeline, Connection, Error, no_listener, no_bind, Try, ok, fail, panic,
  ◌>>=◌, new, unwrap, init_twitter, init_twitter_list,
}
use pipitor.App.Sync.{Task, sync_websub_subscriptions}
use pipitor.App.Reload.{App}

-- What becomes of a listener: it is made, or fails, or there is none to make it of.
pub data Made : Type 0 where
  made failed absent : Made

-- A run of the scheduler that `Subscriber::new` spawns: its time, and the draws of its renewals.
pub record Pass : Type 0 where
  pub now : ℕ
  pub rng : ℕ → Rng

-- The sockets: whether an address can be bound, and the sockets that are passed by `LISTEN_FD`; and the
-- runs of the scheduler while the start waits for Twitter.
pub record Sockets : Type 0 where
  pub passes : List Pass
  pub bind : String → Bool
  pub tcp : Made
  pub unix : Made

abbrev pub bound : Bool → Try (Unit {0})
bound true = ok tt
bound false = fail no_listener

abbrev from_unix : Made → Try (Unit {0})
from_unix made = ok tt
from_unix failed = fail no_listener
from_unix absent = fail no_bind

abbrev from_env : Made → Made → Try (Unit {0})
from_env made u = ok tt
from_env failed u = fail no_listener
from_env absent u = from_unix u

-- `incoming`.
unfoldable pub listen : Sockets → Option String → Try (Unit {0})
listen s none = from_env s.tcp s.unix
listen s (some addr) = bound (s.bind addr)

-- What the runs of the scheduler leave; the task of the scheduler ends by a panic.
unfoldable pub run_passes : Library → Uri → ℕ → List Pass → Db → Db
run_passes b callback margin [] d = d
run_passes b callback margin (p ∷ passes) d = elim (run_scheduled b callback margin p.now p.rng d) [
  | done r ↦ run_passes b callback margin passes r.db
  | crashed rs d' ↦ d'
  | Outcome.panic ↦ d
  | starved ↦ d
]

abbrev margin_of : Option Websub → ℕ
margin_of none = 0
margin_of (some config) = config.renewal_margin

-- The scheduler is there if the subscriber is, which has rows.
abbrev pub scheduled :
    {R : Type 0} → Library → List Pass → Option Uri → Option Rows → Core R → Core R
scheduled b passes none rows c = c
scheduled b passes (some callback) none c = c
scheduled b passes (some callback) (some rows) c =
    let d = run_passes b callback (margin_of c.manifest.websub) passes rows.websub in
    record c { pool = record c.pool { rows = some (record rows { websub = d }) } }

module _ {R : Type 0} (to_uri : String → Uri) (s : Sockets) where
  -- The callback of the subscriber, if there is one; the subscriptions that were never verified go.
  unfoldable pub init_websub : Core R → Try (Option Uri × Core R)
  unfolding listen unwrap
  init_websub c = elim c.manifest.websub [
    | none ↦ ok (none, c)
    | some config ↦ do
      i ← listen s config.bind
      rows ← unwrap c.pool.rows
      let d = remove_dangling_subscriptions rows.websub
      ok (
        some (prepare_callback_prefix (to_uri config.callback)),
        record c { pool = record c.pool { rows = some (record rows { websub = d }) } },
      )
  ]

  -- The application, and the tasks that it has spawned.
  unfoldable pub with_http_client :
      Library → (Stream → Connection) → Option Pool → Manifest R → Try (App R × List Task)
  unfolding init_websub
  with_http_client b connects pool m = do
    c ← new pool m
    (websub, c') ← init_websub c
    twitter ← init_twitter connects c'
    let c1 = scheduled b s.passes websub c'.pool.rows c'
    list ← init_twitter_list c1
    (tasks, c'') ← sync_websub_subscriptions b websub c1
    ok (record { core = c''; twitter = twitter; twitter_list = list; websub = websub }, tasks)
