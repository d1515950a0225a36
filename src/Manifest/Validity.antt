-- ===== src/Manifest/Validity.antt =====
-- What a manifest that validates guarantees.
use pipitor.Base.{true, [], ◌≡◌, ◌↔◌, ◌⊎◌, none, arith}
use pipitor.Manifest.{Manifest, twitter_topics, twitter_outboxes, validate, is_some}

-- A manifest validates exactly when it has the credentials of Twitter, or needs none: no topic and
-- no outbox is a Twitter user.
pub validate_iff :
    {R : Type 0} (m : Manifest R)
    → (validate m ≡ none)
      ↔ ((is_some m.twitter ≡ true) ⊎ ((twitter_topics m ≡ []) × (twitter_outboxes m ≡ [])))
unfolding validate
validate_iff m = ground arith
