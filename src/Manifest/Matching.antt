-- ===== src/Manifest/Matching.antt =====
-- src/manifest.rs: `Filter::matches_entry` and `matches_tweet`, over the entries of src/feed.rs and
-- the Tweets of src/twitter/models.rs.
use pipitor.Base.{String, Bool, false, ◌||◌, Option, none, some}
use pipitor.Base.Int.{ℤ}
use pipitor.Manifest.{Filter}

pub record Entry : Type 0 where
  pub title : Option String
  pub id : Option String
  pub link : Option String
  pub summary : Option String
  pub content : Option String
  pub updated : Option ℤ

-- Of a quoted status the id is kept, and of a retweeted one that it is there.
pub record Tweet : Type 0 where
  pub id : ℤ
  pub text : String
  pub in_reply_to_status_id : Option ℤ
  pub in_reply_to_user_id : Option ℤ
  pub user : ℤ
  pub quoted_status : Option ℤ
  pub retweeted_status : Bool

module _ {R : Type 0} (is_match : R → String → Bool) where
  abbrev pub matches_some : R → Option String → Bool
  matches_some r none = false
  matches_some r (some t) = is_match r t

  abbrev pub text_matches : Option R → Entry → Bool
  text_matches none e = false
  text_matches (some r) e = matches_some r e.content || matches_some r e.summary

  unfoldable pub matches_entry : Filter R → Entry → Bool
  matches_entry f e = matches_some f.title e.title || text_matches f.text e

  abbrev pub text_matches_tweet : Option R → Tweet → Bool
  text_matches_tweet none t = false
  text_matches_tweet (some r) t = is_match r t.text

  unfoldable pub matches_tweet : Filter R → Tweet → Bool
  matches_tweet f t = is_match f.title t.text || text_matches_tweet f.text t
