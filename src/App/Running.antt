-- ===== src/App/Running.antt =====
-- src/app.rs: the polling of the application, its shutdown and its reset. A stream outside the program
-- is what it yields while it is polled, up to where it is not ready. Queries are taken to succeed.
pub mod Ended
pub mod Polled
use pipitor.Base.{
  ℕ, zero, suc, ◌+◌, Bool, true, false, ◌&&◌, List, [], ◌∷◌, ◌++◌, ◌==◌, length, String, Option,
  none, some, if◌then◌else◌,
}
use pipitor.Base.Int.{ℤ}
use pipitor.Manifest.{Manifest, Twitter, TopicId, has_topic}
use pipitor.Manifest.Matching.{Entry, Tweet}
use pipitor.Router.{route_tweet, route_entry}
use pipitor.Twitter.ListTimeline.{Timeline, finished, pending, item, poll_next, shutdown}
use pipitor.App.Core.{Core, Stream, Connection, Try, ok, ◌>>=◌, init_twitter}
use pipitor.App.Sender.{Tables, Task, send_tweet, send_each}
use pipitor.App.Sender.Entries.{Update, send_feed}

-- What the Streaming API sends: `Maybe::Just`, `Maybe::Nothing`, and what is no JSON of either.
pub data Event : Type 0 where
  just : Tweet → Event
  nothing malformed : Event

pub data Streamed : Type 0 where
  event : Event → Streamed → Streamed
  closed broken quiet : Streamed

-- What the subscriber yields, or an error of its listener.
pub data Updates : Type 0 where
  update : String → List Entry → Updates → Updates
  failing idle : Updates

pub data Sent : Type 0 where
  retweets : List Task → Sent
  updates : List Update → Sent

pub record Running (R : Type 0) : Type 0 where
  pub core : Core R
  pub twitter : Option Streamed
  pub twitter_list : Option Timeline
  pub websub : Option Updates
  pub tables : Tables
  -- What has been spawned, in order.
  pub sent : List Sent
  -- The owners of the object in `src/app/shutdown.rs`.
  pub handles : ℕ

-- A call of `send_tweets`, `send_feed` or `send_tweet`.
pub data Work : Type 0 where
  tweets : List Tweet → Work
  feed : String → List Entry → Work
  tweet : Tweet → Work

pub data Failure : Type 0 where
  listener stream json : Failure

pub data Poll : Type 0 where
  waiting done : Poll
  failed : Failure → Poll

abbrev pub reverse {ℓ} : {A : Type ℓ} → List A → List A
reverse [] = []
reverse (x ∷ xs) = reverse xs ++ x ∷ []

-- `will_process`.
unfoldable pub will_process : {R : Type 0} → Manifest R → Tweet → Bool
will_process m t =
    has_topic m (TopicId.twitter t.user)
    && elim t.in_reply_to_user_id [ none ↦ true | some to ↦ has_topic m (TopicId.twitter to) ]

abbrev pub streams : Option Twitter → Bool
streams none = false
streams (some config) = config.stream

-- The Tweets that are waiting in the channel of the list, and the end.
abbrev pub fuel : Option Timeline → ℕ
fuel none = 1
fuel (some t) = suc (length t.sender.queue)

abbrev pub reopened : (Stream → Streamed) → Option Stream → Option Streamed
reopened opens none = none
reopened opens (some s) = some (opens s)

module _ {R : Type 0} (chars : String → List ℕ) (is_match : R → String → Bool) where
  unfoldable pub perform : Core R → Work → Tables → Sent × Tables
  perform core (tweets ts) s =
      let (tasks, s') =
        send_each core.manifest.skip_duplicate (route_tweet is_match core.router) (reverse ts) s in
      (retweets tasks, s')
  perform core (feed topic es) s =
      (updates (send_feed chars (route_entry is_match core.router) topic es s), s)
  perform core (tweet t) s =
      let (task, s') =
        send_tweet core.manifest.skip_duplicate (route_tweet is_match core.router) t true s in
      (retweets (task ∷ []), s')

  unfoldable pub send : Work → Running R → Running R
  unfolding perform
  send w a =
      let (sent, s) = perform a.core w a.tables in
      record a { tables = s; sent = a.sent ++ sent ∷ [] }

  -- `while let Poll::Ready(Some(tweets)) = twitter_list.poll_next(cx)`: whether the list is at its end
  -- then; `none` without enough fuel.
  unfoldable pub poll_list : ℕ → Running R → Option Bool × Running R
  unfolding send
  poll_list zero a = (none, a)
  poll_list (suc n) a =
      let (polled, list) = poll_next a.twitter_list in
      let a' : Running R = record a { twitter_list = list } in
      elim polled [
        | finished ↦ (some true, a')
        | pending ↦ (some false, a')
        | item ts ↦ poll_list n (send (tweets ts) a')
      ]

  -- The loop over the subscriber: whether it fails.
  unfoldable pub poll_websub : Updates → Running R → Bool × Running R
  unfolding send
  poll_websub (update topic es rest) a = poll_websub rest (send (feed topic es) a)
  poll_websub failing a = (true, record a { websub = some failing })
  poll_websub idle a = (false, record a { websub = some idle })

  -- The loop of `poll_twitter`.
  unfoldable pub poll_stream : Streamed → Running R → Poll × Running R
  unfolding send will_process
  poll_stream (event (just t) rest) a =
      poll_stream rest (if will_process a.core.manifest t then send (tweet t) a else a)
  poll_stream (event nothing rest) a = poll_stream rest a
  poll_stream (event malformed rest) a = (failed json, record a { twitter = some rest })
  poll_stream closed a = (done, record a { twitter = none })
  poll_stream broken a = (failed stream, record a { twitter = none })
  poll_stream quiet a = (waiting, record a { twitter = some quiet })

  unfoldable pub poll_twitter : Running R → Poll × Running R
  unfolding poll_stream
  poll_twitter a = elim a.twitter [ none ↦ (done, a) | some s ↦ poll_stream s a ]

  -- After the list and the subscriber.
  poll_rest : Bool × Running R → Poll × Running R
  unfolding poll_twitter
  poll_rest (true, a) = (failed listener, a)
  poll_rest (false, a) = if streams a.core.manifest.twitter then poll_twitter a else (waiting, a)

  abbrev pub with_websub : Option Updates → Running R → Bool × Running R
  with_websub none a = (false, a)
  with_websub (some u) a = poll_websub u a

  unfoldable pub poll : Running R → Poll × Running R
  unfolding poll_list poll_rest
  poll a = let (end, a') = poll_list (fuel a.twitter_list) a in poll_rest (with_websub a'.websub a')

  -- After the list: whether the application has shut down.
  abbrev after_list : Option Bool × Running R → Bool × Running R
  after_list (some true, a) = (a.handles == 1, a)
  after_list (some false, a) = (false, a)
  after_list (none, a) = (false, a)

  unfoldable pub poll_shutdown : Running R → Bool × Running R
  unfolding poll_list shutdown
  poll_shutdown a =
      let list : Option Timeline = shutdown a.twitter_list in
      after_list (poll_list (fuel list) (record a { twitter_list = list }))

  -- `reset`, up to its first wait for the shutdown.
  unfoldable pub reset :
      (Stream → Connection) → (Stream → Streamed) → Running R → Try (Bool × Running R)
  unfolding poll_shutdown
  reset connects opens a = elim a.twitter [
    | some s ↦ ok (poll_shutdown a)
    | none ↦ do
      twitter ← init_twitter connects a.core
      ok (poll_shutdown (record a { twitter = reopened opens twitter }))
  ]
