-- ===== src/Twitter/Api.antt =====
-- src/twitter/api.rs and the modules below it: the requests to Twitter, as the macro `api_requests`
-- declares them. `new` takes the required parameters and fills in the defaults, and each optional one
-- has a setter. The encoding of the parameters is derived by another crate, and src/twitter/api/oauth.rs
-- is no module of the program.
pub mod Timeline
use pipitor.Base.{ℕ, String, Bool, true, false, Option, none, some}
use pipitor.Base.Int.{ℤ}

pub data Method : Type 0 where
  get post head : Method

pub data TweetMode : Type 0 where
  extended : TweetMode

-- `Display`.
unfoldable pub show : TweetMode → String
show extended = "extended"

pub record Members : Type 0 where
  pub list_id : ℕ
  pub count : Option ℕ
  pub cursor : Option ℕ
  pub include_entities : Bool
  pub skip_status : Bool

pub record Statuses : Type 0 where
  pub list_id : ℕ
  pub since_id : Option ℤ
  pub max_id : Option ℤ
  pub count : Option ℕ
  pub include_entities : Bool
  pub include_rts : Option Bool
  pub tweet_mode : Option TweetMode

pub record Show : Type 0 where
  pub id : ℤ
  pub trim_user : Bool
  pub include_entities : Bool

pub record Update : Type 0 where
  pub status : String
  pub trim_user : Bool

-- The requests: `lists::Members`, `lists::Statuses`, `lists::members::Create` and `Destroy` of a list and
-- a user, `statuses::Retweet`, `Update` and `Show`, and `account::VerifyCredentials`.
pub data Request : Type 0 where
  members : Members → Request
  list_statuses : Statuses → Request
  create destroy : ℕ → ℤ → Request
  retweet : ℤ → Request
  update : Update → Request
  show_status : Show → Request
  verify_credentials : Request

unfoldable pub method : Request → Method
method (members r) = get
method (list_statuses r) = get
method (create list_id user_id) = post
method (destroy list_id user_id) = post
method (retweet id) = post
method (update r) = post
method (show_status r) = head
method verify_credentials = get

unfoldable pub uri : Request → String
uri (members r) = "https://api.twitter.com/1.1/lists/members.json"
uri (list_statuses r) = "https://api.twitter.com/1.1/lists/statuses.json"
uri (create list_id user_id) = "https://api.twitter.com/1.1/lists/members/create.json"
uri (destroy list_id user_id) = "https://api.twitter.com/1.1/lists/members/destroy.json"
uri (retweet id) = "https://api.twitter.com/1.1/statuses/retweet.json"
uri (update r) = "https://api.twitter.com/1.1/statuses/update.json"
uri (show_status r) = "https://api.twitter.com/1.1/statuses/show.json"
uri verify_credentials = "https://api.twitter.com/1.1/account/verify_credentials.json"

unfoldable pub new_members : ℕ → Members
new_members list_id = record {
  list_id = list_id;
  count = none;
  cursor = none;
  include_entities = false;
  skip_status = true;
}

unfoldable pub new_statuses : ℕ → Statuses
new_statuses list_id = record {
  list_id = list_id;
  since_id = none;
  max_id = none;
  count = some 200;
  include_entities = false;
  include_rts = none;
  tweet_mode = some extended;
}

unfoldable pub new_update : String → Update
new_update status = record { status = status; trim_user = true }

unfoldable pub new_show : ℤ → Show
new_show id = record { id = id; trim_user = true; include_entities = false }

-- The setters that have callers.
unfoldable pub set_since_id : Option ℤ → Statuses → Statuses
set_since_id id r = record r { since_id = id }

unfoldable pub set_max_id : Option ℤ → Statuses → Statuses
set_max_id id r = record r { max_id = id }

unfoldable pub set_count : Option ℕ → Statuses → Statuses
set_count n r = record r { count = n }

unfoldable pub set_include_rts : Option Bool → Statuses → Statuses
set_include_rts b r = record r { include_rts = b }

unfoldable pub set_members_count : Option ℕ → Members → Members
set_members_count n r = record r { count = n }

-- The requests of src/twitter/list_timeline.rs: the first page of the backfill, the next one, and the
-- newest Tweets since an id, if there is one.
unfoldable pub first_request : ℕ → ℤ → Statuses
first_request list_id since_id = set_since_id (some since_id) (new_statuses list_id)

unfoldable pub next_request : ℕ → ℤ → ℤ → Statuses
next_request list_id since_id max_id =
    set_max_id (some max_id) (set_since_id (some since_id) (new_statuses list_id))

unfoldable pub send_request : ℕ → Option ℤ → Statuses
send_request list_id since_id =
    let count : ℕ = elim since_id [ none ↦ 1 | some id ↦ 200 ] in
    set_since_id since_id
      (set_include_rts (some false) (set_count (some count) (new_statuses list_id)))

-- The request of src/bin/pipitor/twitter_list_sync.rs.
unfoldable pub members_request : ℕ → Members
members_request list_id = set_members_count (some 5_000) (new_members list_id)
