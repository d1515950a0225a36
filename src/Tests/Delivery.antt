-- ===== src/Tests/Delivery.antt =====
-- The theorem on the updates of the application at a pushed feed.
use pipitor.Base.{String, [], ◌∷◌, ◌++◌, none, some, str_eq, refl}
use pipitor.Feed.MediaType.{MediaType}
use pipitor.Feed.Convert.{Feed}
use pipitor.Websub.Service.Call.{HttpRequest, Parsers, Task, Called, sent}
use pipitor.Websub.Service.Call
use pipitor.App.Running.{Running, update, idle, poll}
use pipitor.Websub.Discovery.{Fetched}
use pipitor.Delivery.{pushed}
use pipitor.Base.{List}
use pipitor.Base.Int.{pos}
use mathlib.Core.List.{Memᴰ}
use pipitor.Manifest.{Outbox}
use pipitor.Manifest.Matching.{matches_entry}
use pipitor.Router.Routes.{times, routes_for}
use pipitor.App.Sender.Entries.{Update}
use pipitor.App.Running.{updates}
use pipitor.App.Running.Polled.{feeds}
use pipitor.Delivery.Complete.{update_for, poll-delivers}
use pipitor.Tests.Subscriber.{parsers}
use pipitor.Tests.Subscriber
use pipitor.Tests.Lifecycle.{row}
use pipitor.Tests.Application.{core, manifest, entry, tables, chars}

abbrev news : Feed
news = record { title = "News"; id = "https://feed"; entries = entry ∷ [] }

-- Every text is the feed.
abbrev feed_parsers : Parsers Feed
feed_parsers = record {
  verify = parsers.verify;
  mime = parsers.mime;
  hex = parsers.hex;
  feed = λ kind content. some news;
}

-- The signature is the secret and the content.
abbrev signed : HttpRequest
signed = record pipitor.Tests.Subscriber.pushed {
  signature = some (b's' ∷ b'h' ∷ b'a' ∷ b'1' ∷ b'=' ∷ row.secret ++ 4 ∷ []);
}

abbrev task : Task
task = record {
  kind = MediaType.atom;
  signature = row.secret ++ 4 ∷ [];
  topic = "https://feed";
  secret = row.secret;
}

-- A web without answers.
abbrev NothingFetched : String → Fetched → Type 0
NothingFetched topic answer = ⊥

abbrev polled : Running String
polled = record {
  core = core;
  twitter = none;
  twitter_list = none;
  websub = some (update "https://feed" (entry ∷ []) idle);
  tables = tables;
  sent = [];
  handles = 1;
}

poll-delivers_example :
    (us : List Update) × Memᴰ (updates us) (poll chars str_eq polled).1.sent
    × Memᴰ (update_for chars entry "https://feed/1" (Outbox.twitter (pos 7))) us
unfolding feeds routes_for times matches_entry
poll-delivers_example =
    poll-delivers chars str_eq polled manifest (update "https://feed" (entry ∷ []) idle)
      "https://feed" "https://feed/1" (entry ∷ []) entry (Outbox.twitter (pos 7)) refl refl
      (Memᴰ.head refl) (Memᴰ.head refl) refl refl (Memᴰ.head refl)
