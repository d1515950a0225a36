-- ===== src/Twitter/ListTimeline.antt =====
-- src/twitter/list_timeline.rs: the polling of a list's timeline, and the backfill of the Tweets
-- since the last run. The requests go to a server outside the program; an answer is an argument.
-- `is_open` is whether the receiver of the channel is there, and `queue` what it has not yet read; the
-- channel has a guaranteed slot for each sender, so that a send fails only when it is closed.
pub mod Progress
pub mod Backfill
use pipitor.Base.{
  ℕ, zero, suc, ◌-◌, Bool, true, false, List, [], ◌∷◌, ◌++◌, Option, none, some, ◌==◌,
  if◌then◌else◌,
}
use pipitor.Base.Int.{ℤ, pos, int_eq, int_min, int_max, int_pred}
use pipitor.Manifest.{TwitterList}
use pipitor.Manifest.Matching.{Tweet}
use pipitor.Twitter.Interval.{Interval, delay}
use pipitor.Twitter.Snowflake.{system_time_to_snowflake}

-- `lists::Statuses` of src/twitter/api/lists.rs, whose `count` is 200 unless it is set.
pub record Statuses : Type 0 where
  pub list_id : ℕ
  pub count : Option ℕ
  pub since_id : Option ℤ
  pub max_id : Option ℤ
  pub include_rts : Option Bool

-- `RequestSender`, with the channel.
pub record Sender : Type 0 where
  pub list_id : ℕ
  pub delay : ℕ
  pub since_id : ℤ
  pub is_open : Bool
  pub queue : List (List Tweet)
  pub interval : Interval

pub record RateLimit : Type 0 where
  pub remaining : ℕ
  pub reset : ℕ

pub data Answer : Type 0 where
  tweets : List Tweet → Option RateLimit → Answer
  twitter_error : Option RateLimit → Answer
  other_error : Answer

unfoldable pub set_since_id : ℤ → Sender → Sender
set_since_id id s = record s { since_id = int_max s.since_id id }

-- The first of the two requests of `send`: `now` is the system time in milliseconds, `s.delay` too.
-- `none` where the subtraction or the conversion of the time panics.
unfoldable pub send : ℕ → Sender → Option Statuses
send now s =
    if int_eq s.since_id (pos 0)
    then some (record {
      list_id = s.list_id;
      count = some 1;
      since_id = none;
      max_id = none;
      include_rts = some false;
    })
    else elim (system_time_to_snowflake (now - s.delay)) [
      | none ↦ none
      | some min ↦ some (record {
        list_id = s.list_id;
        count = some 200;
        since_id = some (int_min s.since_id (pos min));
        max_id = none;
        include_rts = some false;
      })
    ]

unfoldable pub limit : Option RateLimit → Sender → Sender
limit none s = s
limit (some l) s =
    if l.remaining == 0
    then record s { interval = pipitor.Twitter.Interval.delay l.reset s.interval }
    else s

abbrev pub push : List Tweet → Sender → Sender
push ts s = record s { queue = s.queue ++ ts ∷ [] }

-- What `send` does with the answer.
unfoldable pub answered : Answer → Sender → Sender
unfolding limit set_since_id
answered (tweets [] l) s = limit l s
answered (tweets (t ∷ ts) l) s =
    if s.is_open then limit l (set_since_id t.id (push (t ∷ ts) s)) else s
answered (twitter_error l) s = limit l s
answered other_error s = s

abbrev pub last_of : Tweet → List Tweet → Tweet
last_of t [] = t
last_of t (u ∷ us) = last_of u us

-- `ListTimeline::new` asks for the first page of the backfill.
unfoldable pub first_page : ℕ → ℤ → Statuses
first_page list since_id = record {
  list_id = list;
  count = some 200;
  since_id = some since_id;
  max_id = none;
  include_rts = none;
}

unfoldable pub next_page : ℕ → ℤ → Tweet → Statuses
next_page list since_id last = record {
  list_id = list;
  count = some 200;
  since_id = some since_id;
  max_id = some (int_pred last.id);
  include_rts = none;
}

-- `Backfill::poll` once the response is there, `none` for an error: the request that it goes on
-- with, if it goes on.
unfoldable pub poll_backfill : ℤ → Option (List Tweet) → Sender → Option Statuses × Sender
unfolding set_since_id next_page
poll_backfill since_id none s = (none, s)
poll_backfill since_id (some []) s = (none, s)
poll_backfill since_id (some (t ∷ ts)) s =
    let s' = set_since_id t.id s in
    if s.is_open
    then (some (next_page s.list_id since_id (last_of t ts)), push (t ∷ ts) s')
    else (none, s')

-- The backfill against a server, until it ends or the fuel does.
unfoldable pub backfill :
    (Statuses → Option (List Tweet)) → ℤ → ℕ → Statuses → Sender → Bool × Sender
unfolding poll_backfill
backfill server since_id zero request s = (false, s)
backfill server since_id (suc n) request s =
    let (next, s') = poll_backfill since_id (server request) s in
    elim next [ none ↦ (true, s') | some request' ↦ backfill server since_id n request' s' ]

-- The stream: `shut` is whether the sender's `Arc` of the timeline has been dropped.
pub record Timeline : Type 0 where
  pub sender : Sender
  pub shut : Bool
  -- Whether an `Arc` of the sender is still held, by the timeline, a backfill or a request.
  pub senders : ℕ

pub data Poll : Type 0 where
  finished pending : Poll
  item : List Tweet → Poll

-- `ListTimeline::poll_next`; the stream of `ListTimeline::empty` is `none`.
unfoldable pub poll_next : Option Timeline → Poll × Option Timeline
poll_next none = (finished, none)
poll_next (some t) = elim t.sender.queue [
  | [] ↦ if t.senders == 0 then (finished, some t) else (pending, some t)
  | ◌∷◌ ts queue ↦ (item ts, some (record t { sender = record t.sender { queue = queue } }))
]

-- `ListTimeline::shutdown`.
unfoldable pub shutdown : Option Timeline → Option Timeline
shutdown none = none
shutdown (some t) =
    if t.shut then some t else some (record t { shut = true; senders = t.senders - 1 })
