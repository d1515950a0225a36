-- ===== src/Manifest/Deserialize.antt =====
-- src/manifest.rs: how a manifest is read. A struct is read from a table, whose unknown fields are
-- skipped; that serde reads it from an array too is left out. The crates `regex` and `http` compile
-- expressions and parse addresses.
pub mod Bounds
use pipitor.Base.{
  ℕ, ◌+◌, ◌*◌, ◌/◌, ◌%◌, ◌^◌, ◌&&◌, not, String, Bool, true, false, List, [], ◌∷◌, Option, none,
  some, ltb, ◌==◌, if◌then◌else◌,
}
use pipitor.Base.Options.{◌>>=◌}
use pipitor.Base.Int.{ℤ, pos, negsuc}
use pipitor.Manifest.{
  TopicId, Outbox, Filter, Route, Rule, TwitterList, Twitter, Websub, Manifest, validate,
}
use pipitor.Manifest.Value.{
  Value, integer, text, array, table, variant, no_values, value, as_table, as_bool, as_text, in_i64,
  as_i64, as_u64, look, required, defaulted, optional, as_array,
}

-- `union_visitor!`: a case of a union is read as what it holds, which is no case again.
abbrev pub union {ℓ} : {A : Type ℓ} → (Value → Option A) → Value → Option A
union visit (variant name v) = visit v
union visit v = visit v

unfoldable pub visit_topic : Value → Option TopicId
visit_topic (integer i) = if in_i64 i then some (TopicId.twitter i) else none
visit_topic (text s) = some (TopicId.feed s)
visit_topic v = none

-- `TopicId::deserialize`.
unfoldable pub topic_id : Value → Option TopicId
unfolding visit_topic
topic_id v = union visit_topic v

unfoldable pub visit_outbox : Value → Option Outbox
visit_outbox (integer i) = if in_i64 i then some (Outbox.twitter i) else none
visit_outbox v = none

-- `Outbox::deserialize`.
unfoldable pub outbox : Value → Option Outbox
unfolding visit_outbox
outbox v = union visit_outbox v

abbrev pub singleton : Option Outbox → Option (List Outbox)
singleton none = none
singleton (some o) = some (o ∷ [])

unfoldable pub de_outbox : Value → Option (List Outbox)
unfolding visit_outbox outbox as_array
de_outbox (integer i) = singleton (visit_outbox (integer i))
de_outbox (array vs) = as_array outbox (array vs)
de_outbox v = none

-- `Duration`.
pub record Duration : Type 0 where
  pub secs : ℕ
  pub nanos : ℕ

abbrev pub in_u32 : ℕ → Option ℕ
in_u32 n = if ltb n (2 ^ 32) then some n else none

-- `Duration::deserialize`; nanoseconds above a second are carried over.
unfoldable pub duration : ℕ → ℕ → Option Duration
duration secs nanos =
    let carried = secs + nanos / 1_000_000_000 in
    if ltb carried (2 ^ 64)
    then some (record { secs = carried; nanos = nanos % 1_000_000_000 })
    else none

-- From a number of seconds, a table or a pair.
unfoldable pub de_duration_from_secs : Value → Option Duration
unfolding as_u64 look duration
de_duration_from_secs (integer i) = do n ← as_u64 (integer i); some (record { secs = n; nanos = 0 })
de_duration_from_secs (table fs) = do
  secs ← required as_u64 (look "secs" fs)
  n ← required as_u64 (look "nanos" fs)
  nanos ← in_u32 n
  duration secs nanos
de_duration_from_secs (array (value s (value n no_values))) = do
  secs ← as_u64 s
  m ← as_u64 n
  nanos ← in_u32 m
  duration secs nanos
de_duration_from_secs v = none

abbrev pub one_hour : Duration
one_hour = record { secs = 60 * 60; nanos = 0 }

abbrev pub one_sec : Duration
one_sec = record { secs = 1; nanos = 0 }

abbrev pub as_nanos : Duration → ℕ
as_nanos d = d.secs * 1_000_000_000 + d.nanos

-- The crates, and the address that a listener is bound to.
pub record Readers (R : Type 0) : Type 0 where
  pub regex : String → Option R
  -- Whether an address parses, and whether it has a scheme and a query.
  pub uri : String → Option (Bool × Bool)
  pub addr : String → Bool

module _ {R : Type 0} (r : Readers R) where
  unfoldable pub as_regex : Value → Option R
  as_regex (text s) = r.regex s
  as_regex v = none

  -- `Filter::deserialize`: a title alone, or a table.
  unfoldable pub filter : Value → Option (Filter R)
  unfolding as_regex look
  filter (text s) = do title ← r.regex s; some (record { title = title; text = none })
  filter (table fs) = do
    title ← required as_regex (look "title" fs)
    body ← optional as_regex (look "text" fs)
    some (record { title = title; text = body })
  filter v = none

  -- `Rule::deserialize`.
  unfoldable pub rule : Value → Option (Rule R)
  unfolding filter de_outbox topic_id as_array look
  rule v = do
    fs ← as_table v
    selected ← optional filter (look "filter" fs)
    excluded ← optional filter (look "exclude" fs)
    outboxes ← required de_outbox (look "outbox" fs)
    topics ← required (as_array topic_id) (look "topics" fs)
    some (record {
      route = record { filter = selected; exclude = excluded; outbox = outboxes };
      topics = topics;
    })

  unfoldable pub de_callback : Value → Option String
  de_callback (text s) = do
    (has_scheme, has_query) ← r.uri s
    if has_scheme && not has_query then some s else none
  de_callback v = none

  unfoldable pub bind_addr : Value → Option String
  bind_addr (text s) = if r.addr s then some s else none
  bind_addr v = none

  unfoldable pub websub : Value → Option Websub
  unfolding de_callback bind_addr de_duration_from_secs look
  websub v = do
    fs ← as_table v
    callback ← required de_callback (look "callback" fs)
    bind ← optional bind_addr (look "bind" fs)
    margin ← defaulted de_duration_from_secs one_hour (look "renewal_margin" fs)
    some (record { callback = callback; bind = bind; renewal_margin = as_nanos margin })

-- `NonZeroU64`.
unfoldable pub non_zero : Value → Option ℕ
unfolding as_u64
non_zero v = do n ← as_u64 v; if n == 0 then none else some n

unfoldable pub twitter_list : Value → Option TwitterList
unfolding non_zero de_duration_from_secs look
twitter_list v = do
  fs ← as_table v
  id ← required non_zero (look "id" fs)
  interval ← defaulted de_duration_from_secs one_sec (look "interval" fs)
  delay ← defaulted de_duration_from_secs one_sec (look "delay" fs)
  some (record { id = id; interval = as_nanos interval; delay = as_nanos delay })

-- `CredentialsDef`; the secret is only sent.
unfoldable pub credentials : Value → Option String
unfolding look
credentials v = do
  fs ← as_table v
  identifier ← required as_text (look "identifier" fs)
  secret ← required as_text (look "secret" fs)
  some identifier

unfoldable pub twitter : Value → Option Twitter
unfolding credentials as_i64 twitter_list look
twitter v = do
  fs ← as_table v
  client ← required credentials (look "client" fs)
  user ← required as_i64 (look "user" fs)
  stream ← defaulted as_bool true (look "stream" fs)
  list ← optional twitter_list (look "list" fs)
  some (record { identifier = client; user = user; stream = stream; list = list })

unfoldable pub validated : {R : Type 0} → Manifest R → Option (Manifest R)
validated m = elim (validate m) [ none ↦ some m | some e ↦ none ]

-- `Manifest::deserialize`.
unfoldable pub deserialize : {R : Type 0} → Readers R → Value → Option (Manifest R)
unfolding rule websub twitter as_array look validated
deserialize {R = R} r v = do
  fs ← as_table v
  database_url ← optional as_text (look "database_url" fs)
  rules ← required (as_array (rule r)) (look "rule" fs)
  ws ← optional (websub r) (look "websub" fs)
  tw ← optional twitter (look "twitter" fs)
  skip ← defaulted as_bool false (look "skip_duplicate" fs)
  let m : Manifest R = record {
    database_url = database_url;
    rule = rules;
    websub = ws;
    twitter = tw;
    skip_duplicate = skip;
  }
  validated m
