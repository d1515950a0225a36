-- ===== src/App/Sync/Topics.antt =====
-- What a synchronization does for the topics of the manifest, and for those of the database.
use pipitor.Base.{String, Bool, List, any, retain, map, str_eq}
use pipitor.Manifest.{Manifest}
use pipitor.Websub.Store.{Db, Subscription}
use pipitor.App.Sync.{str_in}

-- A subscription to the topic has a row.
pub has_topic_row : Db → String → Bool
has_topic_row d t = any (λ s. str_eq s.topic t) d.subscriptions

-- The topics of the rows that are among some.
rows_of : List String → List Subscription → List String
rows_of topics subs = map (λ s. s.topic) (retain (λ s. str_in s.topic topics) subs)
