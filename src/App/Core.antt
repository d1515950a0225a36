-- ===== src/App/Core.antt =====
-- src/app/core.rs: the state that the application shares, and the tokens of its Twitter users.
-- The hash map of tokens is an association list. `Pool` is a database and what its queries return:
-- `none` when no connection can be had.
pub mod Loaded
pub mod Tokens
use pipitor.Base.{
  ℕ, ◌+◌, ◌-◌, ◌*◌, ◌^◌, ◌%◌, String, Bool, true, false, not, List, [], ◌∷◌, ◌++◌, any, retain, map,
  length, find, Option, none, some, ◌==◌, ltb, if◌then◌else◌, ◌≡◌, refl,
}
use pipitor.Base.Int.{ℤ, pos, negsuc, int_eq, int_ltb}
use pipitor.Base.Ints.{int_in, int_set}
use pipitor.Manifest.{
  Manifest, Twitter, TwitterList, Invalid, validate, twitter_outboxes, twitter_topics,
}
use pipitor.Router.{Router, from_manifest}
use pipitor.Websub.Store.{Db}

-- A row of `twitter_tokens`, `models::TwitterToken`.
pub record Token : Type 0 where
  pub id : ℤ
  pub identifier : String
  pub secret : String

pub record Rows : Type 0 where
  pub twitter_tokens : List Token
  pub last_tweet : Option ℤ
  pub websub : Db

pub record Pool : Type 0 where
  pub url : String
  pub rows : Option Rows

pub record Core (R : Type 0) : Type 0 where
  pub manifest : Manifest R
  pub router : Router R
  pub pool : Pool
  pub twitter_tokens : List Token

-- How a function of the application ends: the errors are in the order of the source, and `panic`
-- is an `unwrap` of nothing; `dropped` is a future that is dropped while it waits.
pub data Error : Type 0 where
  invalid : Invalid → Error
  no_pool no_connection unauthorized no_stream : Error
  -- A listener that cannot be made, and none that is asked for.
  no_listener no_bind : Error

pub data Try {ℓ} (A : Type ℓ) : Type ℓ where
  ok : A → Try A
  fail : Error → Try A
  panic dropped : Try A

infixl 5 ◌>>=◌
abbrev pub ◌>>=◌ {ℓ κ} : {A : Type ℓ} {B : Type κ} → Try A → (A → Try B) → Try B
ok a >>= f = f a
fail e >>= f = fail e
panic >>= f = panic
dropped >>= f = dropped

pub bind-ok :
    {A B : Type 0} (t : Try A) (f : A → Try B) {b : B}
    → (t >>= f) ≡ ok b
    → (x : A) × (t ≡ ok x) × (f x ≡ ok b)
bind-ok (ok x) f h = (x, refl, h)
bind-ok (fail e) f h = absurd (cc h)
bind-ok panic f h = absurd (cc h)
bind-ok dropped f h = absurd (cc h)

pub ok-injective : {A : Type 0} {a b : A} → ok a ≡ ok b → a ≡ b
ok-injective h = cc h

abbrev pub or_fail {ℓ} : {A : Type ℓ} → Error → Option A → Try A
or_fail e none = fail e
or_fail e (some a) = ok a

abbrev pub ids : List Token → List ℤ
ids = map (λ t. t.id)

-- `contains_key`.
abbrev pub has_token : ℤ → List Token → Bool
has_token user tokens = int_in user (ids tokens)

-- `get`.
abbrev pub find_token : ℤ → List Token → Option Token
find_token user = find (λ t. int_eq t.id user)

-- `extend`: a later token takes the place of an earlier one of the same user.
abbrev pub extend : List Token → List Token → List Token
extend tokens [] = tokens
extend tokens (t ∷ ts) = extend (t ∷ retain (λ u. not (int_eq u.id t.id)) tokens) ts

module _ {R : Type 0} where
  -- The users of the outboxes, and the manifest's own.
  abbrev pub users : Manifest R → Twitter → List ℤ
  users m config = twitter_outboxes m ++ config.user ∷ []

  unfoldable pub unauthed_users : Core R → Twitter → List ℤ
  unauthed_users c config =
      int_set (retain (λ u. not (has_token u c.twitter_tokens)) (users c.manifest config))

  -- From the rows of the unauthorized users on.
  unfoldable pub load_rows : Core R → Twitter → List Token → Try (Core R)
  unfolding unauthed_users
  load_rows c config rows =
      let tokens = retain (λ t. int_in t.id (unauthed_users c config)) rows in
      if length (unauthed_users c config) == length tokens
      then ok (record c { twitter_tokens = extend c.twitter_tokens tokens })
      else fail unauthorized

  abbrev pub load_with : Core R → Option Twitter → Option Rows → Try (Core R)
  load_with c none rows = ok c
  load_with c (some config) none = fail no_connection
  load_with c (some config) (some rows) = load_rows c config rows.twitter_tokens

  unfoldable pub load_twitter_tokens : Core R → Try (Core R)
  load_twitter_tokens c = load_with c c.manifest.twitter c.pool.rows

  unfoldable pub gc_twitter_tokens : Core R → Core R
  gc_twitter_tokens c = elim c.manifest.twitter [
    | none ↦ record c { twitter_tokens = [] }
    | some config ↦ record c {
      twitter_tokens =
          retain (λ t. int_in t.id (int_set (users c.manifest config))) c.twitter_tokens;
    }
  ]

  unfoldable pub twitter_access_token : Core R → ℤ → Option Token
  twitter_access_token c user = find_token user c.twitter_tokens

  -- The client's identifier and the user's token.
  unfoldable pub twitter_token : Core R → Option ℤ → Option (String × Token)
  unfolding twitter_access_token
  twitter_token c user = elim c.manifest.twitter [
    | none ↦ none
    | some config ↦
        let u : ℤ = elim user [ none ↦ config.user | some given ↦ given ] in
        elim (twitter_access_token c u) [ none ↦ none | some t ↦ some (config.identifier, t) ]
  ]

-- `id as u64`.
abbrev pub as_u64 : ℤ → ℕ
as_u64 (pos n) = n % 2 ^ 64
as_u64 (negsuc n) = 2 ^ 64 - 1 - n % 2 ^ 64

-- `sort_unstable` and `dedup`: the numbers, ascending and each of them once.
abbrev pub insert_sorted : ℕ → List ℕ → List ℕ
insert_sorted n [] = n ∷ []
insert_sorted n (m ∷ ms) =
    if ltb n m then n ∷ m ∷ ms else if n == m then m ∷ ms else m ∷ insert_sorted n ms

abbrev pub sort_dedup : List ℕ → List ℕ
sort_dedup [] = []
sort_dedup (n ∷ ns) = insert_sorted n (sort_dedup ns)

-- The connection to the Streaming API: the client, the token and the users that it follows.
pub record Stream : Type 0 where
  pub client : String
  pub token : Token
  pub follow : List ℕ

-- `ListTimeline::new`'s arguments; `none` for `ListTimeline::empty`.
pub record Timeline : Type 0 where
  pub list : TwitterList
  pub since_id : Option ℤ
  pub client : String
  pub token : Token

-- `filter(|&n| n > 0)`.
abbrev pub positive : Option ℤ → Option ℤ
positive none = none
positive (some n) = if int_ltb (pos 0) n then some n else none

unfoldable pub unwrap {ℓ} : {A : Type ℓ} → Option A → Try A
unwrap none = panic
unwrap (some a) = ok a

-- What becomes of a connection that is asked for.
pub data Connection : Type 0 where
  accepted refused abandoned : Connection

abbrev pub connected : Stream → Connection → Try (Option Stream)
connected stream accepted = ok (some stream)
connected stream refused = fail no_stream
connected stream abandoned = dropped

module _ {R : Type 0} where
  -- `connects` says what becomes of the connection to the Streaming API.
  unfoldable pub init_twitter : (Stream → Connection) → Core R → Try (Option Stream)
  unfolding unwrap twitter_access_token
  init_twitter connects c = elim c.manifest.twitter [
    | none ↦ ok none
    | some config ↦ if not config.stream then ok none else do
      token ← unwrap (twitter_access_token c config.user)
      let stream : Stream = record {
        client = config.identifier;
        token = token;
        follow = sort_dedup (map as_u64 (twitter_topics c.manifest));
      }
      connected stream (connects stream)
  ]

  unfoldable pub init_twitter_list : Core R → Try (Option Timeline)
  unfolding unwrap
  init_twitter_list c = elim c.manifest.twitter [
    | none ↦ ok none
    | some config ↦ elim config.list [
      | none ↦ ok none
      | some list ↦ do
        rows ← or_fail no_connection c.pool.rows
        token ← unwrap (find_token config.user c.twitter_tokens)
        ok (
            some (record {
              list = list;
              since_id = positive rows.last_tweet;
              client = config.identifier;
              token = token;
            }))
    ]
  ]

  -- `Core::new`, with the pool of the manifest's database and its rows after the row of
  -- `last_tweet` is there.
  unfoldable pub new : Option Pool → Manifest R → Try (Core R)
  unfolding load_twitter_tokens
  new pool m = elim (validate m) [
    | some e ↦ fail (invalid e)
    | none ↦ do
      p ← or_fail no_pool pool
      rows ← or_fail no_connection p.rows
      load_twitter_tokens
          (record { manifest = m; router = from_manifest m; pool = p; twitter_tokens = [] })
  ]
