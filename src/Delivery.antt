-- ===== src/Delivery.antt =====
-- src/websub/subscriber/service.rs, src/websub/subscriber.rs, src/app.rs and src/app/sender.rs together:
-- from the requests of hubs and the discovery of topics to the updates that the outboxes get.
pub mod Complete
pub mod Genuine
pub mod Selected
use pipitor.Base.{ℕ, String, true, Option, some, ◌≡◌}
use mathlib.Core.List.{Memᴰ}
use pipitor.Feed.Convert.{Feed}
use pipitor.Websub.Callback.{Library}
use pipitor.Websub.Address.{Uri}
use pipitor.Websub.Hub.{done}
use pipitor.Websub.Service.Call.{HttpRequest, Mac, Parsers, Task, Called, call, verify_signature}
use pipitor.Websub.Discovery.{Crates, Fetched, Found, found, discover}
use pipitor.Websub.Lifecycle.{World, Reach}
use pipitor.App.Running.{Updates, update, failing, idle}

-- What the crates do, the callback, the code of signatures, and the answers that the web gives to a
-- request for a topic.
module _ (b : Library) (callback : Uri) (m : Mac) (p : Parsers Feed) (crates : Crates)
    (web : String → Fetched → Type 0) where
  -- A feed of a topic that is sent to the channel: by the task of a request, in some world that the
  -- subscriber has reached, or by a discovery whose request the web has answered.
  pub data Arrives (topic : String) (feed : Feed) : Type 0 where
    pushed :
        {w : World} (margin now : ℕ) (req : HttpRequest) (t : Task) (c : Called)
        → Reach b callback w
        → call b callback p margin now req w.db ≡ done c
        → c.task ≡ some t
        → verify_signature m p true t req.body ≡ some (topic, feed)
        → Arrives topic feed
    fetched :
        (res : Fetched) (f : Found)
        → web topic res
        → discover crates true topic (some res) ≡ found f
        → Memᴰ (topic, feed) f.sent
        → Arrives topic feed

  -- What the subscriber yields: the feeds of the channel in any order.
  pub data Yields : Updates → Type 0 where
    none_yet : Yields idle
    broken_listener : Yields failing
    next_feed :
        {topic : String} {feed : Feed} {rest : Updates}
        → Arrives topic feed
        → Yields rest
        → Yields (update topic feed.entries rest)
