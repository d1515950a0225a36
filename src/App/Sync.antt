-- ===== src/App/Sync.antt =====
-- src/app.rs: `sync_websub_subscriptions`. The hash sets are lists without repetition; a spawned
-- task is returned. The topics are taken to be URIs: at another one `discover` panics, as
-- Websub/Discovery has it.
pub mod Topics
use pipitor.Base.{
  String, Bool, true, false, not, List, [], ◌∷◌, ◌++◌, any, retain, map, str_eq, Option, none, some,
  if◌then◌else◌,
}
use pipitor.Manifest.{Manifest, feed_topics}
use pipitor.Websub.Callback.{Library}
use pipitor.Websub.Address.{Uri}
use pipitor.Websub.Hub.{
  Request, Outcome, done, crashed, panic, starved, after, ◌>>=◌, unsubscribe_all,
}
use pipitor.Websub.Store.{Db, Subscription}
use pipitor.App.Core.{Core, Pool, Rows, Try, ok, fail, no_connection, or_fail}

pub data Task : Type 0 where
  discover_and_subscribe discover : String → Task
  request : Request → Task

abbrev pub str_in : String → List String → Bool
str_in s = any (λ t. str_eq t s)

abbrev pub str_set : List String → List String
str_set [] = []
str_set (t ∷ ts) = if str_in t ts then str_set ts else t ∷ str_set ts

module _ (b : Library) (callback : Uri) where
  -- The last loop, which spawns the requests to unsubscribe from each topic.
  unfoldable pub unsubscribe_each : List String → Db → Outcome (List Request × Db)
  unsubscribe_each [] d = done ([], d)
  unsubscribe_each (t ∷ ts) d = do
    (requests, d') ← unsubscribe_all b callback t d
    after requests (unsubscribe_each ts d')

  -- `none` is a panic.
  abbrev pub with_requests : List Task → Outcome (List Request × Db) → Option (List Task × Db)
  with_requests tasks (done (requests, d)) = some (tasks ++ map Task.request requests, d)
  with_requests tasks (crashed requests d) = none
  with_requests tasks panic = none
  with_requests tasks starved = none

  unfoldable pub sync_topics : {R : Type 0} → Manifest R → Db → Option (List Task × Db)
  unfolding unsubscribe_each
  sync_topics m d =
      let topics = str_set (feed_topics m) in
      let subscribed =
        str_set (map (λ s. s.topic) (retain (λ s. str_in s.topic topics) d.subscriptions)) in
      with_requests
        (map Task.discover_and_subscribe (retain (λ t. not (str_in t subscribed)) topics)
          ++ map Task.discover (retain (λ t. str_in t subscribed) topics))
        (unsubscribe_each (retain (λ t. not (str_in t topics)) subscribed) d)

-- With the tables of the synchronization.
abbrev pub with_rows :
    {R : Type 0} → Core R → Rows → Option (List Task × Db) → Try (List Task × Core R)
with_rows c rows none = Try.panic
with_rows c rows (some (tasks, d)) =
    ok (tasks, record c { pool = record c.pool { rows = some (record rows { websub = d }) } })

-- `websub` is the callback of the subscriber, if there is one.
abbrev pub sync_with :
    {R : Type 0} → Library → Core R → Option Uri → Option Rows → Try (List Task × Core R)
sync_with b c none rows = ok ([], c)
sync_with b c (some callback) none = fail no_connection
sync_with b c (some callback) (some rows) =
    with_rows c rows (sync_topics b callback c.manifest rows.websub)

unfoldable pub sync_websub_subscriptions :
    {R : Type 0} → Library → Option Uri → Core R → Try (List Task × Core R)
sync_websub_subscriptions b websub c = sync_with b c websub c.pool.rows
