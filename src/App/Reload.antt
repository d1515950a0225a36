-- ===== src/App/Reload.antt =====
-- src/app.rs: `replace_manifest`, with the guard that rolls the application back.
pub mod Authorized
pub mod Rollback
use pipitor.Base.{
  ℕ, String, Bool, true, false, not, ◌&&◌, ◌||◌, List, [], any, str_eq, Option, none, some,
  if◌then◌else◌,
}
use pipitor.Base.Int.{ℤ, int_eq}
use pipitor.Manifest.{Manifest, Twitter, Invalid, TopicId, validate, has_topic, twitter_topics}
use pipitor.Router.{Router, from_manifest}
use pipitor.Websub.Callback.{Library}
use pipitor.Websub.Address.{Uri}
use pipitor.App.Core.{
  Core, Pool, Stream, Timeline, Connection, Error, invalid, no_pool, Try, ok, fail, panic, dropped,
  load_twitter_tokens, gc_twitter_tokens, init_twitter, init_twitter_list,
}
use pipitor.App.Sync.{Task, sync_websub_subscriptions}

pub record App (R : Type 0) : Type 0 where
  pub core : Core R
  pub twitter : Option Stream
  pub twitter_list : Option Timeline
  -- The callback of the subscriber.
  pub websub : Option Uri

-- What `replace_manifest` returns; the tasks are those that it spawned.
pub data Replaced (R : Type 0) : Type 0 where
  replaced : Manifest R → List Task → Replaced R
  rejected : Error → Manifest R → Replaced R
  panicked abandoned : Replaced R

abbrev pub opt_eq : Option String → Option String → Bool
opt_eq none none = true
opt_eq none (some b) = false
opt_eq (some a) none = false
opt_eq (some a) (some b) = str_eq a b

abbrev client_changed : Twitter → Option Twitter → Bool
client_changed newt none = true
client_changed newt (some oldt) =
    not (str_eq newt.identifier oldt.identifier) || not (int_eq newt.user oldt.user)

module _ {R : Type 0} where
  -- The Twitter side of the manifest has changed.
  unfoldable pub has_updates : Manifest R → Manifest R → Bool
  has_updates new old = elim new.twitter [
    | none ↦ false
    | some newt ↦
        client_changed newt old.twitter
        || any (λ u. not (has_topic old (TopicId.twitter u))) (twitter_topics new)
        || any (λ u. not (has_topic new (TopicId.twitter u))) (twitter_topics old)
  ]

  -- `?` in the `async` block, whose result comes with the application as it is then.
  abbrev pub or_return :
      {A : Type 0} → App R → Try A → (A → Try (List Task) × App R) → Try (List Task) × App R
  or_return app (ok a) f = f a
  or_return app (fail e) f = (fail e, app)
  or_return app panic f = (panic, app)
  or_return app dropped f = (dropped, app)

  module _ (b : Library) where
    unfoldable pub synced : App R → Try (List Task) × App R
    synced app =
        or_return app (sync_websub_subscriptions b app.websub app.core)
          (λ (tasks, c). (ok tasks, record app { core = c }))

    unfoldable pub reconnected : (Stream → Connection) → App R → Try (List Task) × App R
    unfolding synced
    reconnected connects app = or_return app (init_twitter connects app.core) (λ stream.
        or_return app (init_twitter_list app.core)
          (λ list. synced (record app { twitter = stream; twitter_list = list })))

    unfoldable pub catch : (Stream → Connection) → Manifest R → App R → Try (List Task) × App R
    unfolding reconnected
    catch connects old app = or_return app (load_twitter_tokens app.core) (λ c.
        let app' : App R = record app { core = c } in
        if has_updates c.manifest old then reconnected connects app' else synced app')

  -- `Guard::rollback`: `old_pool` is there if the pool has been replaced.
  unfoldable pub rollback : Manifest R → Option Pool → App R → App R
  rollback old none app = record app { core = record app.core { manifest = old } }
  rollback old (some pool) app = record app {
    core = record app.core { manifest = old; pool = pool };
  }

  unfoldable pub finish : Manifest R → Option Pool → Try (List Task) × App R → Replaced R × App R
  unfolding rollback
  finish old old_pool (ok tasks, app) = (
    replaced old tasks,
    record app {
      core = let c = gc_twitter_tokens app.core in record c { router = from_manifest c.manifest };
    },
  )
  finish old old_pool (fail e, app) = (rejected e app.core.manifest, rollback old old_pool app)
  finish old old_pool (panic, app) = (panicked, rollback old old_pool app)
  finish old old_pool (dropped, app) = (abandoned, rollback old old_pool app)

  -- From where the pool is known.
  unfoldable pub install :
      Library → (Stream → Connection) → Manifest R → Pool → Option Pool → App R → Replaced R × App R
  unfolding finish catch
  install b connects m pool old_pool app = finish app.core.manifest old_pool (
      catch b connects app.core.manifest
        (record app { core = record app.core { manifest = m; pool = pool } }))

  abbrev pub with_pool :
      Library → (Stream → Connection) → Option Pool → Manifest R → App R → Bool → Replaced R × App R
  with_pool b connects opened m app true = install b connects m app.core.pool none app
  with_pool b connects none m app false = (rejected no_pool m, app)
  with_pool b connects (some pool) m app false = install b connects m pool (some app.core.pool) app

  -- `opened` is the pool of the new manifest's database, if it can be opened.
  unfoldable pub replace_manifest :
      Library → (Stream → Connection) → Option Pool → Manifest R → App R → Replaced R × App R
  replace_manifest b connects opened m app = elim (validate m) [
    | some e ↦ (rejected (invalid e) m, app)
    | none ↦
        with_pool b connects opened m app (opt_eq m.database_url app.core.manifest.database_url)
  ]
