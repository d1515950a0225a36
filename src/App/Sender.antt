-- ===== src/App/Sender.antt =====
-- src/app/sender.rs: what entries and Tweets lead to. The tables `tweets`, `last_tweet`, `entries`
-- and `ongoing_retweets` (migrations/*/up.sql) are the state. A spawned task is returned; its end
-- is a function of its own. Queries are taken to succeed, as on a sound database.
pub mod Entries
pub mod Once
use pipitor.Base.{
  ℕ, String, Bool, true, false, not, ◌&&◌, ◌||◌, List, [], ◌∷◌, ◌++◌, ◌==◌, any, retain, map,
  str_eq, Option, none, some, if◌then◌else◌,
}
use pipitor.Base.Int.{ℤ, pos, int_eq, int_ltb, int_max}
use pipitor.Manifest.{Outbox, outbox_user, is_nil}
use pipitor.Manifest.Matching.{Entry, Tweet}

pub record TweetRow : Type 0 where
  pub id : ℤ
  pub text : String
  pub user_id : ℤ
  pub in_reply_to_status_id : Option ℤ
  pub quoted_status_id : Option ℤ

pub record EntryRow : Type 0 where
  pub topic : String
  pub id : Option String
  pub link : String
  pub title : Option String
  pub summary : Option String
  pub content : Option String
  pub updated : Option ℤ

pub record Tables : Type 0 where
  pub tweets : List TweetRow
  pub last_tweet : ℤ
  pub entries : List EntryRow
  -- The Tweet and the user of each retweet that is under way.
  pub ongoing : List (ℤ × ℤ)

-- `NewTweet::from`.
unfoldable pub new_tweet : Tweet → TweetRow
new_tweet t = record {
  id = t.id;
  text = t.text;
  user_id = t.user;
  in_reply_to_status_id = t.in_reply_to_status_id;
  quoted_status_id = t.quoted_status;
}

-- `NewEntry::new`.
unfoldable pub new_entry : String → Entry → Option EntryRow
new_entry topic e = elim e.link [
  | none ↦ none
  | some link ↦ some (record {
    topic = topic;
    id = e.id;
    link = link;
    title = e.title;
    summary = e.summary;
    content = e.content;
    updated = e.updated;
  })
]

-- `=` of SQL, on columns that may be null.
abbrev pub sql_eq : Option String → Option String → Bool
sql_eq none b = false
sql_eq (some a) none = false
sql_eq (some a) (some b) = str_eq a b

abbrev pub is_processed : Tables → ℤ → Bool
is_processed s id = any (λ r. int_eq r.id id) s.tweets

-- The largest id of the rows with the author and the text.
unfoldable pub duplicate : ℤ → String → List TweetRow → Option ℤ
duplicate user text [] = none
duplicate user text (r ∷ rows) =
    let later = duplicate user text rows in
    if int_eq r.user_id user && str_eq r.text text
    then some (elim later [ none ↦ r.id | some id ↦ int_max r.id id ])
    else later

unfoldable pub replace_tweet : TweetRow → List TweetRow → List TweetRow
replace_tweet t rows = t ∷ retain (λ r. not (int_eq r.id t.id)) rows

abbrev pub same_retweet : ℤ → ℤ → ℤ × ℤ → Bool
same_retweet id user (i, u) = int_eq i id && int_eq u user

abbrev pub remove_ongoing : ℤ → ℤ → List (ℤ × ℤ) → List (ℤ × ℤ)
remove_ongoing id user rows = retain (λ r. not (same_retweet id user r)) rows

unfoldable pub replace_ongoing : ℤ → List ℤ → List (ℤ × ℤ) → List (ℤ × ℤ)
replace_ongoing id [] rows = rows
replace_ongoing id (user ∷ users) rows =
    replace_ongoing id users ((id, user) ∷ remove_ongoing id user rows)

-- What a Tweet leads to: retweets by the users, at once or if the duplicate is gone.
pub data Task : Type 0 where
  nothing : Task
  retweet_by : List ℤ → Task
  unless_exists : ℤ → List ℤ → Task

-- `Sender::retweet`: the Tweet and its retweets are recorded in one transaction.
unfoldable pub retweet : Tweet → List Outbox → Tables → List ℤ × Tables
unfolding replace_tweet replace_ongoing new_tweet
retweet t outboxes s = (
  map outbox_user outboxes,
  record s {
    tweets = replace_tweet (new_tweet t) s.tweets;
    ongoing = replace_ongoing t.id (map outbox_user outboxes) s.ongoing;
  },
)

after_duplicate : Option ℤ → List ℤ → Task
after_duplicate none users = retweet_by users
after_duplicate (some dup) users = unless_exists dup users

module _ (skip_duplicate : Bool) (route_tweet : Tweet → List Outbox) where
  -- From where the Tweet is known to be new and no retweet.
  unfoldable pub send_new : Tweet → Tables → Task × Tables
  unfolding retweet after_duplicate
  send_new t s =
      let (users, s') = retweet t (route_tweet t) s in
      if not skip_duplicate
      then (retweet_by users, s')
      else if is_nil (route_tweet t)
      then (nothing, s)
      else (after_duplicate (duplicate t.user t.text s.tweets) users, s')

  abbrev pub with_last : Bool → Tweet → Tables → Tables
  with_last update_last_tweet t s =
      if update_last_tweet && int_ltb s.last_tweet t.id then record s { last_tweet = t.id } else s

  -- `send_tweet_`.
  unfoldable pub send_tweet : Tweet → Bool → Tables → Task × Tables
  unfolding send_new
  send_tweet t update_last_tweet s =
      let s' = with_last update_last_tweet t s in
      if is_processed s t.id
      then (nothing, s)
      else if t.retweeted_status
      then (nothing, s')
      else send_new t s'

  -- The loop of `send_tweets`, over the Tweets from the oldest on.
  unfoldable pub send_each : List Tweet → Tables → List Task × Tables
  send_each [] s = ([], s)
  send_each (t ∷ ts) s =
      let (task, s') = send_tweet t (is_nil ts) s in
      let (tasks, s'') = send_each ts s' in (task ∷ tasks, s'')

-- How the request of a retweet ends: with success, with an error of Twitter's and its codes, or
-- with another error.
pub data Reply : Type 0 where
  success : Reply
  twitter_error : List ℕ → Reply
  other_error : Reply

-- The codes `YOU_HAVE_ALREADY_RETWEETED_THIS_TWEET` and `NO_STATUS_FOUND_WITH_THAT_ID` of the
-- crate `twitter_client`.
module _ (already_retweeted no_status_found : ℕ) where
  abbrev pub is_negligible : ℕ → Bool
  is_negligible code = code == already_retweeted || code == no_status_found

  -- The `or_else` of a retweet: whether its result is `Ok`.
  unfoldable pub is_ok : Reply → Bool
  is_ok success = true
  is_ok (twitter_error codes) = not (any is_negligible codes)
  is_ok other_error = false

  -- The end of a retweet.
  unfoldable pub finish_retweet : ℤ → ℤ → Reply → Tables → Tables
  unfolding is_ok
  finish_retweet id user reply s =
      if is_ok reply then record s { ongoing = remove_ongoing id user s.ongoing } else s
