-- ===== src/Manifest/Deserialize/Bounds.antt =====
-- What the manifests that src/manifest.rs reads satisfy.
use pipitor.Base.{
  true, false, List, [], ◌∷◌, map, Option, none, some, All, All-append, ◌≡◌, subst, Bool-cases,
  Option-cases, inl, inr,
}
use pipitor.Manifest.{
  TopicId, Outbox, Rule, Manifest, validate, topics_of, outboxes_of, users_among, outbox_user,
  twitter_topics, twitter_outboxes,
}
use pipitor.Base.Options.{bind-some}
use pipitor.Manifest.Value.{
  Value, integer, text, array, variant, Values, no_values, value, as_table, as_text, as_bool,
  optional, defaulted, in_i64, Looked, present, look, required, read_all, as_array,
}
use pipitor.Manifest.Deserialize.{
  filter, websub, twitter, validated, visit_topic, topic_id, visit_outbox, outbox, de_outbox, rule,
  Readers, deserialize,
}

-- A topic or an outbox whose user is an `i64`.
abbrev pub IsTopic : TopicId → Type 0
IsTopic (TopicId.feed s) = Unit
IsTopic (TopicId.twitter u) = in_i64 u ≡ true

abbrev pub IsOutbox : Outbox → Type 0
IsOutbox (Outbox.twitter u) = in_i64 u ≡ true

visit_topic-IsTopic : (v : Value) (t : TopicId) → visit_topic v ≡ some t → IsTopic t
unfolding visit_topic
visit_topic-IsTopic (integer i) t h = elim (Bool-cases (in_i64 i)) [
  | inl e ↦ subst IsTopic {x = TopicId.twitter i} (cc (rw e at h)) e
  | inr e ↦ absurd (cc (rw e at h))
]
visit_topic-IsTopic (text s) t h = subst IsTopic {x = TopicId.feed s} (cc h) tt
visit_topic-IsTopic v t h = absurd (cc h)

topic_id-IsTopic : (v : Value) (t : TopicId) → topic_id v ≡ some t → IsTopic t
unfolding topic_id
topic_id-IsTopic (variant name v) t h = visit_topic-IsTopic v t h
topic_id-IsTopic v t h = visit_topic-IsTopic v t h

visit_outbox-IsOutbox : (v : Value) (o : Outbox) → visit_outbox v ≡ some o → IsOutbox o
unfolding visit_outbox
visit_outbox-IsOutbox (integer i) o h = elim (Bool-cases (in_i64 i)) [
  | inl e ↦ subst IsOutbox {x = Outbox.twitter i} (cc (rw e at h)) e
  | inr e ↦ absurd (cc (rw e at h))
]
visit_outbox-IsOutbox v o h = absurd (cc h)

outbox-IsOutbox : (v : Value) (o : Outbox) → outbox v ≡ some o → IsOutbox o
unfolding outbox
outbox-IsOutbox (variant name v) o h = visit_outbox-IsOutbox v o h
outbox-IsOutbox v o h = visit_outbox-IsOutbox v o h

module _ {A : Type 0} (read : Value → Option A) (P : A → Type 0)
    (reads : (v : Value) (a : A) → read v ≡ some a → P a) where
  read_all-All : (vs : Values) (xs : List A) → read_all read vs ≡ some xs → All P xs
  unfolding read_all
  read_all-All no_values xs h = subst (All P) {x = []} (cc h) tt
  read_all-All (value v vs) xs h =
      let (a, e, h') = bind-some (read v) _ h in
      let (rest, e', h'') = bind-some (read_all read vs) _ h' in
      subst (All P) {x = a ∷ rest} (cc h'') (reads v a e, read_all-All vs rest e')

  as_array-All : (v : Value) (xs : List A) → as_array read v ≡ some xs → All P xs
  unfolding as_array
  as_array-All (array vs) xs h = read_all-All vs xs h
  as_array-All v xs h = absurd (cc h)

  required-P : (l : Looked) (a : A) → required read l ≡ some a → P a
  required-P (present v) a h = reads v a h
  required-P l a h = absurd (cc h)

de_outbox-All : (v : Value) (os : List Outbox) → de_outbox v ≡ some os → All IsOutbox os
unfolding de_outbox
de_outbox-All (integer i) os h = elim (Option-cases (visit_outbox (integer i))) [
  | inl e ↦ absurd (cc (rw e at h))
  | inr (o, e) ↦
      subst (All IsOutbox) {x = o ∷ []} (cc (rw e at h)) (visit_outbox-IsOutbox (integer i) o e, tt)
]
de_outbox-All (array vs) os h = as_array-All outbox IsOutbox outbox-IsOutbox (array vs) os h
de_outbox-All v os h = absurd (cc h)

-- A rule whose topics and outboxes are of users that are `i64`.
abbrev pub IsRule : {R : Type 0} → Rule R → Type 0
IsRule r = All IsTopic r.topics × All IsOutbox r.route.outbox

rule-IsRule : {R : Type 0} (r : Readers R) (v : Value) (x : Rule R) → rule r v ≡ some x → IsRule x
unfolding rule
rule-IsRule r v x h =
    let (fs, e0, h0) = bind-some (as_table v) _ h in
    let (f, e1, h1) = bind-some (optional (filter r) (look "filter" fs)) _ h0 in
    let (g, e2, h2) = bind-some (optional (filter r) (look "exclude" fs)) _ h1 in
    let (os, e3, h3) = bind-some (required de_outbox (look "outbox" fs)) _ h2 in
    let (ts, e4, h4) = bind-some (required (as_array topic_id) (look "topics" fs)) _ h3 in
    subst IsRule
      {x = record { route = record { filter = f; exclude = g; outbox = os }; topics = ts }} {y = x}
      (cc h4)
      (
        required-P (as_array topic_id) (All IsTopic)
            (as_array-All topic_id IsTopic topic_id-IsTopic) (look "topics" fs) ts e4,
        required-P de_outbox (All IsOutbox) de_outbox-All (look "outbox" fs) os e3,
      )

validated-some :
    {R : Type 0} (x m : Manifest R) → validated x ≡ some m → (x ≡ m) × (validate x ≡ none)
unfolding validated
validated-some x m h = elim (Option-cases (validate x)) [
  | inl e ↦ (cc (rw (validated, e) at h), e)
  | inr (i, e) ↦ absurd (cc (rw (validated, e) at h))
]

users_among-All : (ts : List TopicId) → All IsTopic ts → All (λ u. in_i64 u ≡ true) (users_among ts)
users_among-All [] h = tt
users_among-All (TopicId.feed s ∷ ts) h = users_among-All ts h.1
users_among-All (TopicId.twitter u ∷ ts) h = (h.0, users_among-All ts h.1)

outbox_user-All :
    (os : List Outbox) → All IsOutbox os → All (λ u. in_i64 u ≡ true) (map outbox_user os)
outbox_user-All [] h = tt
outbox_user-All (Outbox.twitter u ∷ os) h = (h.0, outbox_user-All os h.1)

module _ {R : Type 0} where
  topics_of-All : (rules : List (Rule R)) → All IsRule rules → All IsTopic (topics_of rules)
  unfolding topics_of
  topics_of-All [] h = tt
  topics_of-All (r ∷ rules) h =
      All-append IsTopic r.topics (topics_of rules) h.0.0 (topics_of-All rules h.1)

  outboxes_of-All : (rules : List (Rule R)) → All IsRule rules → All IsOutbox (outboxes_of rules)
  unfolding outboxes_of
  outboxes_of-All [] h = tt
  outboxes_of-All (r ∷ rules) h =
      All-append IsOutbox r.route.outbox (outboxes_of rules) h.0.1 (outboxes_of-All rules h.1)

  -- A manifest that is read validates, and the users of its topics and outboxes are numbers of an `i64`.
  pub deserialize-in_i64 :
      (r : Readers R) (v : Value) (m : Manifest R)
      → deserialize r v ≡ some m
      → (validate m ≡ none)
        × All (λ u. in_i64 u ≡ true) (twitter_topics m)
        × All (λ u. in_i64 u ≡ true) (twitter_outboxes m)
  unfolding deserialize twitter_topics twitter_outboxes
  deserialize-in_i64 r v m h =
      let (fs, e0, h0) = bind-some (as_table v) _ h in
      let (url, e1, h1) = bind-some (optional as_text (look "database_url" fs)) _ h0 in
      let (rules, e2, h2) = bind-some (required (as_array (rule r)) (look "rule" fs)) _ h1 in
      let (ws, e3, h3) = bind-some (optional (websub r) (look "websub" fs)) _ h2 in
      let (tw, e4, h4) = bind-some (optional twitter (look "twitter" fs)) _ h3 in
      let (skip, e5, h5) = bind-some (defaulted as_bool false (look "skip_duplicate" fs)) _ h4 in
      let read : Manifest R = record {
        database_url = url;
        rule = rules;
        websub = ws;
        twitter = tw;
        skip_duplicate = skip;
      } in
      let (same, valid) = validated-some read m h5 in
      let sound : All IsRule rules =
        required-P (as_array (rule r)) (All IsRule) (as_array-All (rule r) IsRule (rule-IsRule r))
          (look "rule" fs) rules e2 in
      subst
        (λ x.
          (validate x ≡ none)
          × All (λ u. in_i64 u ≡ true) (twitter_topics x)
          × All (λ u. in_i64 u ≡ true) (twitter_outboxes x))
        {x = read} same
        (
          valid,
          users_among-All (topics_of rules) (topics_of-All rules sound),
          outbox_user-All (outboxes_of rules) (outboxes_of-All rules sound),
        )
