-- ===== src/Router/Routes.antt =====
-- The router of a manifest against the manifest's rules.
use pipitor.Base.{
  String, Bool, List, [], ◌∷◌, ◌++◌, ◌≡◌, retain, Option, none, some, if◌then◌else◌, refl, ap, ◌∙◌,
  arith, append-nil, append_assoc, Bool-cases, inl, inr,
}
use pipitor.Manifest.{TopicId, Route, Rule, Manifest, topic_eq, topic_eq_iff}
use pipitor.Manifest.Matching.{Entry, Tweet}
use pipitor.Router.{
  Router, push_to, append, find_topic, get, new, append_all, append_rules, from_manifest,
  routes_or_nil, outbox_all, passes_entry, passes_tweet, route_entry, route_tweet,
}

module _ {R : Type 0} where
  -- The route, once for each time that the topic stands in the list.
  unfoldable pub times : TopicId → List TopicId → Route R → List (Route R)
  times topic [] route = []
  times topic (t ∷ ts) route =
      if topic_eq t topic then route ∷ times topic ts route else times topic ts route

  -- The routes of the rules that name the topic, in the order of the rules.
  unfoldable pub routes_for : TopicId → List (Rule R) → List (Route R)
  unfolding times
  routes_for topic [] = []
  routes_for topic (r ∷ rules) = times topic r.topics r.route ++ routes_for topic rules

  -- What a topic's entry becomes when routes are appended.
  extend : Option (List (Route R)) → List (Route R) → Option (List (Route R))
  extend o [] = o
  extend o (x ∷ xs) = some (routes_or_nil o ++ x ∷ xs)

  extend-extend :
      (o : Option (List (Route R))) (xs ys : List (Route R))
      → extend (extend o xs) ys ≡ extend o (xs ++ ys)
  unfolding extend
  extend-extend o [] ys = refl
  extend-extend o (x ∷ xs) [] = rw (append-nil xs)
  extend-extend o (x ∷ xs) (y ∷ ys) = rw (append_assoc (routes_or_nil o) (x ∷ xs) (y ∷ ys))

  find_topic-push_to :
      (t topic : TopicId) (route : Route R) (es : List (TopicId × List (Route R)))
      → find_topic topic (push_to t route es) ≡ (
          if topic_eq t topic
          then some (routes_or_nil (find_topic topic es) ++ route ∷ [])
          else find_topic topic es)
  unfolding find_topic push_to
  find_topic-push_to t topic route [] = refl
  find_topic-push_to t topic route ((k, rs) ∷ es) = ground (
    arith,
    topic_eq_iff t topic,
    topic_eq_iff k topic,
    topic_eq_iff k t,
    find_topic-push_to t topic route es,
  )

  get-append :
      (t topic : TopicId) (route : Route R) (r : Router R)
      → get (append t route r) topic ≡ (
          if topic_eq t topic
          then some (routes_or_nil (get r topic) ++ route ∷ [])
          else get r topic)
  unfolding get append
  get-append t topic route r = find_topic-push_to t topic route r.map

  get-append_all :
      (topic : TopicId) (ts : List TopicId) (route : Route R) (r : Router R)
      → get (append_all ts route r) topic ≡ extend (get r topic) (times topic ts route)
  unfolding append_all times extend
  get-append_all topic [] route r = refl
  get-append_all topic (t ∷ ts) route r = elim (Bool-cases (topic_eq t topic)) [
    | inl e ↦
        get-append_all topic ts route (append t route r)
        ∙ rw (get-append t topic route r, e)
            (extend-extend (get r topic) (route ∷ []) (times topic ts route))
    | inr e ↦ get-append_all topic ts route (append t route r) ∙ rw (get-append t topic route r, e)
  ]

  get-append_rules :
      (topic : TopicId) (rules : List (Rule R)) (r : Router R)
      → get (append_rules rules r) topic ≡ extend (get r topic) (routes_for topic rules)
  unfolding append_rules routes_for extend
  get-append_rules topic [] r = refl
  get-append_rules topic (rule ∷ rules) r =
      get-append_rules topic rules (append_all rule.topics rule.route r)
      ∙ ap (λ o. extend o (routes_for topic rules)) (get-append_all topic rule.topics rule.route r)
      ∙ extend-extend (get r topic) (times topic rule.topics rule.route) (routes_for topic rules)

  -- The entry of a topic that has the routes.
  abbrev pub entry_of : List (Route R) → Option (List (Route R))
  entry_of [] = none
  entry_of (r ∷ rs) = some (r ∷ rs)

  extend-none : (rs : List (Route R)) → extend none rs ≡ entry_of rs
  unfolding extend
  extend-none [] = refl
  extend-none (r ∷ rs) = refl

  routes_or_nil-entry_of : (rs : List (Route R)) → routes_or_nil (entry_of rs) ≡ rs
  routes_or_nil-entry_of [] = refl
  routes_or_nil-entry_of (r ∷ rs) = refl

  -- The router of a manifest has an entry for exactly the topics of the rules: the routes of the
  -- rules that name the topic, in order, and once for each time that it is named.
  pub get-from_manifest :
      (m : Manifest R) (topic : TopicId)
      → get (from_manifest m) topic ≡ entry_of (routes_for topic m.rule)
  unfolding from_manifest get new
  get-from_manifest m topic =
      get-append_rules topic m.rule new ∙ extend-none (routes_for topic m.rule)

  module _ (is_match : R → String → Bool) where
    pub route_entry-from_manifest :
        (m : Manifest R) (topic : String) (e : Entry)
        → route_entry is_match (from_manifest m) topic e
          ≡ outbox_all (retain (passes_entry is_match e) (routes_for (TopicId.feed topic) m.rule))
    unfolding route_entry
    route_entry-from_manifest m topic e = rw (get-from_manifest, routes_or_nil-entry_of)

    -- A Tweet goes to the outboxes of the rules that name its author, whose filter matches it or
    -- is absent and whose exclusion does not; an entry of a feed goes by its topic in the same way.
    pub route-from_manifest :
        (m : Manifest R) (topic : String) (e : Entry) (t : Tweet)
        → (route_entry is_match (from_manifest m) topic e
            ≡ outbox_all
                (retain (passes_entry is_match e) (routes_for (TopicId.feed topic) m.rule)))
          × (route_tweet is_match (from_manifest m) t
              ≡ outbox_all
                  (retain (passes_tweet is_match t) (routes_for (TopicId.twitter t.user) m.rule)))
    unfolding route_tweet
    route-from_manifest m topic e t =
        (route_entry-from_manifest m topic e, rw (get-from_manifest, routes_or_nil-entry_of))
