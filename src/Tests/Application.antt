-- ===== src/Tests/Application.antt =====
-- The theorems of the application, the router and the Twitter client at concrete inputs.
use pipitor.Base.{
  ℕ, ◌+◌, ◌≡◌, refl, arith, List, [], ◌∷◌, ◌++◌, String, true, false, Option, none, some, All,
  str_eq,
}
use pipitor.Base.Int.{pos}
use pipitor.Manifest.{TopicId, Outbox, Rule, Twitter, Manifest}
use pipitor.Manifest.Matching.{Entry, Tweet, matches_entry}
use pipitor.Router.{from_manifest, route_entry}
use pipitor.Router.Routes.{routes_for, route-from_manifest}
use pipitor.Twitter.Interval.{Interval}
use pipitor.Twitter.ListTimeline.{Statuses, Sender, Answer, first_page, backfill}
use pipitor.Twitter.ListTimeline.Backfill.{
  IsDescending, Serves, Sends, selected, backfill-first_page,
}
use pipitor.Twitter.ListTimeline.Progress.{Event, IsCovered, Advances, run, run-Advances}
use pipitor.Websub.Scheduler.{Clock}
use pipitor.App.Sender.{Tables, nothing, send_each, finish_retweet, success, twitter_error}
use pipitor.App.Sender.Once.{send_each_again, finish_retweet-is_ongoing, is_ongoing}
use pipitor.App.Sender.Entries.{
  send_entry, finish_update, IsWithinLimit, send_entry-finish_update, send_entry-IsWithinLimit,
}
use pipitor.App.Core.{Core, Token, Rows, Pool, Connection}
use pipitor.App.Reload.{App, replace_manifest}
use pipitor.App.Reload.Rollback.{Ends, replace_manifest-Ends}
use pipitor.Tests.Data.{padded, callback, db}

-- Entries of a feed and Tweets of user 5 go to user 7.
abbrev pub rule : Rule String
rule = record {
  route = record {
    filter = some (record { title = "news"; text = none });
    exclude = none;
    outbox = Outbox.twitter (pos 7) ∷ [];
  };
  topics = TopicId.feed "https://feed" ∷ TopicId.twitter (pos 5) ∷ TopicId.feed "https://new" ∷ [];
}

abbrev pub config : Twitter
config = record { identifier = "client"; user = pos 7; stream = true; list = none }

abbrev pub manifest : Manifest String
manifest = record {
  database_url = none;
  rule = rule ∷ [];
  websub = none;
  twitter = some config;
  skip_duplicate = true;
}

abbrev pub entry : Entry
entry = record {
  title = some "news";
  id = none;
  link = some "https://feed/1";
  summary = none;
  content = none;
  updated = none;
}

abbrev pub tweet : ℕ → Tweet
tweet n = record {
  id = pos n;
  text = "news";
  in_reply_to_status_id = none;
  in_reply_to_user_id = none;
  user = pos 5;
  quoted_status = none;
  retweeted_status = false;
}

route-from_manifest_example :
    route_entry str_eq (from_manifest manifest) "https://feed" entry ≡ Outbox.twitter (pos 7) ∷ []
unfolding routes_for matches_entry
route-from_manifest_example = (route-from_manifest str_eq manifest "https://feed" entry (tweet 1)).0

abbrev clock : ℕ → Clock
clock n = record { instant_now = 1_000 + n; now_unix = n }

abbrev pub interval : Interval
interval = record { alive = true; period = 10; next_tick = 0; deadline = 1_000 }

abbrev pub timeline : List Tweet
timeline = tweet 30 ∷ tweet 20 ∷ tweet 10 ∷ []

-- A server whose pages have one Tweet.
abbrev page_of : List Tweet → List Tweet
page_of [] = []
page_of (t ∷ ts) = t ∷ []

abbrev rest_of : List Tweet → List Tweet
rest_of [] = []
rest_of (t ∷ ts) = ts

page_of-begins : (ts : List Tweet) → page_of ts ++ rest_of ts ≡ ts
page_of-begins [] = refl
page_of-begins (t ∷ ts) = refl

page_of-ends : (ts : List Tweet) → page_of ts ≡ [] → rest_of ts ≡ []
page_of-ends [] h = refl
page_of-ends (t ∷ ts) h = ground arith

abbrev server : Statuses → Option (List Tweet)
server r = some (page_of (selected timeline r))

server-Serves : Serves timeline server
server-Serves = record {
  page = λ r. page_of (selected timeline r);
  rest = λ r. rest_of (selected timeline r);
  answers = λ r. refl;
  begins = λ r. page_of-begins (selected timeline r);
  ends = λ r. page_of-ends (selected timeline r);
}

abbrev pub sender : Sender
sender = record {
  list_id = 3;
  delay = 1000;
  since_id = pos 0;
  is_open = true;
  queue = [];
  interval = interval;
}

timeline-IsDescending : IsDescending timeline
unfolding IsDescending
timeline-IsDescending = ((refl, (refl, tt)), ((refl, tt), (tt, tt)))

backfill-first_page_example :
    Sends sender
      (tweet 30 ∷ tweet 20 ∷ [])
      (backfill server (pos 10) 4 (first_page 3 (pos 10)) sender)
backfill-first_page_example =
    backfill-first_page timeline server server-Serves (pos 10) timeline-IsDescending 3 sender refl

abbrev events : List Event
events =
    Event.backfilled (pos 10) (some (tweet 30 ∷ []))
    ∷ Event.polled (Answer.tweets (tweet 20 ∷ []) none)
    ∷ Event.taken
    ∷ []

run-Advances_example : Advances sender (run events sender)
unfolding IsCovered
run-Advances_example = run-Advances events sender tt

abbrev pub tables : Tables
tables = record { tweets = []; last_tweet = pos 1; entries = []; ongoing = (pos 30, pos 7) ∷ [] }

abbrev route_all : Tweet → List Outbox
route_all t = Outbox.twitter (pos 7) ∷ []

send_each_again_example :
    All
      (λ task. task ≡ nothing)
      (send_each true route_all
        (tweet 20 ∷ tweet 30 ∷ [])
        (send_each true route_all
          (tweet 40 ∷ [])
          (send_each true route_all (tweet 20 ∷ tweet 30 ∷ []) tables).1).1).0
send_each_again_example =
    send_each_again true route_all (tweet 20 ∷ tweet 30 ∷ []) (tweet 40 ∷ []) tables

finish_retweet-is_ongoing_example :
    is_ongoing
      (pos 30)
      (pos 7)
      (finish_retweet 327 144 (pos 30) (pos 7) (twitter_error (327 ∷ [])) tables)
    ≡ true
finish_retweet-is_ongoing_example =
    (finish_retweet-is_ongoing 327 144 (pos 30) (pos 7) (pos 30) (pos 7) tables (327 ∷ [])
      success).2

abbrev pub token : Token
token = record { id = pos 7; identifier = "token"; secret = "secret" }

abbrev pub rows : Rows
rows = record { twitter_tokens = token ∷ []; last_tweet = some (pos 0); websub = db }

abbrev pub core : Core String
core = record {
  manifest = manifest;
  router = from_manifest manifest;
  pool = record { url = "pipitor.sqlite3"; rows = some rows };
  twitter_tokens = [];
}

abbrev app : App String
app = record { core = core; twitter = none; twitter_list = none; websub = some callback }

-- The new manifest names another database.
abbrev moved : Manifest String
moved = record manifest { database_url = some "other.sqlite3" }

abbrev other_pool : Pool
other_pool = record { url = "other.sqlite3"; rows = none }

replace_manifest-Ends_example :
    Ends moved app
      (replace_manifest padded (λ stream. Connection.accepted) (some other_pool) moved app)
replace_manifest-Ends_example =
    replace_manifest-Ends padded (λ stream. Connection.accepted) (some other_pool) moved app

-- The code points of a text, here none.
abbrev pub chars : String → List ℕ
chars s = []

abbrev route_entry_all : String → Entry → List Outbox
route_entry_all topic e = Outbox.twitter (pos 7) ∷ []

send_entry-finish_update_example :
    send_entry chars route_entry_all "https://other" entry
      (finish_update "https://feed" entry true tables)
    ≡ []
send_entry-finish_update_example =
    send_entry-finish_update chars route_entry_all "https://feed" "https://other" "https://feed/1"
      "https://feed/1" entry entry tables refl refl refl

send_entry-IsWithinLimit_example :
    All
      (IsWithinLimit chars route_entry_all "https://feed/1")
      (send_entry chars route_entry_all "https://feed" entry tables)
send_entry-IsWithinLimit_example =
    send_entry-IsWithinLimit chars route_entry_all "https://feed" "https://feed/1" entry tables refl
