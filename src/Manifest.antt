-- ===== src/Manifest.antt =====
-- src/manifest.rs: the manifest, and what it says of topics and outboxes. The regular expressions
-- of the crate `regex` are a type `R` with a test; a `Duration` is a number of nanoseconds.
pub mod Deserialize
pub mod Matching
pub mod Paths
pub mod Validity
pub mod Value
use pipitor.Base.{
  ℕ, String, Bool, true, false, List, [], ◌∷◌, ◌++◌, ◌≡◌, ◌↔◌, map, any, Option, none, some, str_eq,
  refl, arith, eq_iff,
}
use pipitor.Base.Int.{ℤ, int_eq, int_eq_iff}

pub data TopicId : Type 0 where
  feed : String → TopicId
  twitter : ℤ → TopicId

pub data Outbox : Type 0 where
  twitter : ℤ → Outbox

pub record Filter (R : Type 0) : Type 0 where
  pub title : R
  pub text : Option R

pub record Route (R : Type 0) : Type 0 where
  pub filter : Option (Filter R)
  pub exclude : Option (Filter R)
  pub outbox : List Outbox

pub record Rule (R : Type 0) : Type 0 where
  pub route : Route R
  pub topics : List TopicId

pub record TwitterList : Type 0 where
  pub id : ℕ
  pub interval : ℕ
  pub delay : ℕ

-- The credentials of the client are its identifier here; the secret is only sent.
pub record Twitter : Type 0 where
  pub identifier : String
  pub user : ℤ
  pub stream : Bool
  pub list : Option TwitterList

pub record Websub : Type 0 where
  pub callback : String
  pub bind : Option String
  pub renewal_margin : ℕ

pub record Manifest (R : Type 0) : Type 0 where
  pub database_url : Option String
  pub rule : List (Rule R)
  pub websub : Option Websub
  pub twitter : Option Twitter
  pub skip_duplicate : Bool

-- `TopicId`'s derived `PartialEq`.
abbrev pub topic_eq : TopicId → TopicId → Bool
topic_eq (TopicId.feed a) (TopicId.feed b) = str_eq a b
topic_eq (TopicId.feed a) (TopicId.twitter b) = false
topic_eq (TopicId.twitter a) (TopicId.feed b) = false
topic_eq (TopicId.twitter a) (TopicId.twitter b) = int_eq a b

pub topic_eq_iff : (a b : TopicId) → (topic_eq a b ≡ true) ↔ (a ≡ b)
topic_eq_iff (TopicId.feed a) (TopicId.feed b) = ground (arith, eq_iff a b)
topic_eq_iff (TopicId.feed a) (TopicId.twitter b) = ground arith
topic_eq_iff (TopicId.twitter a) (TopicId.feed b) = ground arith
topic_eq_iff (TopicId.twitter a) (TopicId.twitter b) = ground (arith, int_eq_iff a b)

module _ {R : Type 0} where
  topics_of : List (Rule R) → List TopicId
  topics_of [] = []
  topics_of (r ∷ rules) = r.topics ++ topics_of rules

  unfoldable pub topics : Manifest R → List TopicId
  unfolding topics_of
  topics m = topics_of m.rule

  unfoldable pub has_topic : Manifest R → TopicId → Bool
  unfolding topics
  has_topic m topic = any (λ t. topic_eq t topic) (topics m)

  unfoldable pub outboxes_of : List (Rule R) → List Outbox
  outboxes_of [] = []
  outboxes_of (r ∷ rules) = r.route.outbox ++ outboxes_of rules

  unfoldable pub outboxes : Manifest R → List Outbox
  unfolding outboxes_of
  outboxes m = outboxes_of m.rule

abbrev pub feeds_among : List TopicId → List String
feeds_among [] = []
feeds_among (TopicId.feed t ∷ ts) = t ∷ feeds_among ts
feeds_among (TopicId.twitter u ∷ ts) = feeds_among ts

abbrev pub users_among : List TopicId → List ℤ
users_among [] = []
users_among (TopicId.feed t ∷ ts) = users_among ts
users_among (TopicId.twitter u ∷ ts) = u ∷ users_among ts

abbrev pub outbox_user : Outbox → ℤ
outbox_user (Outbox.twitter user) = user

abbrev pub is_some {ℓ} : {A : Type ℓ} → Option A → Bool
is_some none = false
is_some (some a) = true

abbrev pub is_nil {ℓ} : {A : Type ℓ} → List A → Bool
is_nil [] = true
is_nil (x ∷ xs) = false

module _ {R : Type 0} where
  unfoldable pub feed_topics : Manifest R → List String
  unfolding topics
  feed_topics m = feeds_among (topics m)

  unfoldable pub twitter_topics : Manifest R → List ℤ
  unfolding topics
  twitter_topics m = users_among (topics m)

  unfoldable pub twitter_outboxes : Manifest R → List ℤ
  unfolding outboxes
  twitter_outboxes m = map outbox_user (outboxes m)

-- The two messages of `validate_`.
pub data Invalid : Type 0 where
  topics_without_credentials outboxes_without_credentials : Invalid

without_credentials : List ℤ → List ℤ → Option Invalid
without_credentials [] [] = none
without_credentials [] (o ∷ os) = some outboxes_without_credentials
without_credentials (t ∷ ts) os = some topics_without_credentials

unfoldable pub validate : {R : Type 0} → Manifest R → Option Invalid
unfolding without_credentials
validate m = elim m.twitter [
  | none ↦ without_credentials (twitter_topics m) (twitter_outboxes m)
  | some config ↦ none
]
