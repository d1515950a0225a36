-- ===== src/Router.antt =====
-- src/router.rs: the routes of each topic. The hash map is an association list in which a topic
-- stands once; `append` adds to the entry of a topic or makes one.
pub mod Order
pub mod Routes
use pipitor.Base.{
  String, Bool, true, false, not, ◌&&◌, List, [], ◌∷◌, ◌++◌, retain, Option, none, some,
  if◌then◌else◌,
}
use pipitor.Base.Int.{ℤ}
use pipitor.Manifest.{TopicId, Outbox, Filter, Route, Rule, Manifest, topic_eq}
use pipitor.Manifest.Matching.{Entry, Tweet, matches_entry, matches_tweet}

pub record Router (R : Type 0) : Type 0 where
  pub map : List (TopicId × List (Route R))

module _ {R : Type 0} where
  unfoldable pub push_to :
      TopicId → Route R → List (TopicId × List (Route R)) → List (TopicId × List (Route R))
  push_to topic route [] = (topic, route ∷ []) ∷ []
  push_to topic route ((t, rs) ∷ entries) =
      if topic_eq t topic
      then (t, rs ++ route ∷ []) ∷ entries
      else (t, rs) ∷ push_to topic route entries

  unfoldable pub append : TopicId → Route R → Router R → Router R
  unfolding push_to
  append topic route r = record { map = push_to topic route r.map }

  unfoldable pub find_topic : TopicId → List (TopicId × List (Route R)) → Option (List (Route R))
  find_topic topic [] = none
  find_topic topic ((t, rs) ∷ entries) =
      if topic_eq t topic then some rs else find_topic topic entries

  unfoldable pub get : Router R → TopicId → Option (List (Route R))
  unfolding find_topic
  get r topic = find_topic topic r.map

  unfoldable pub new : Router R
  new = record { map = [] }

  unfoldable pub append_all : List TopicId → Route R → Router R → Router R
  append_all [] route r = r
  append_all (t ∷ ts) route r = append_all ts route (append t route r)

  unfoldable pub append_rules : List (Rule R) → Router R → Router R
  unfolding append_all
  append_rules [] r = r
  append_rules (rule ∷ rules) r = append_rules rules (append_all rule.topics rule.route r)

  unfoldable pub from_manifest : Manifest R → Router R
  unfolding append_rules new
  from_manifest m = append_rules m.rule new

  abbrev pub routes_or_nil : Option (List (Route R)) → List (Route R)
  routes_or_nil none = []
  routes_or_nil (some rs) = rs

  abbrev pub outbox_all : List (Route R) → List Outbox
  outbox_all [] = []
  outbox_all (r ∷ rs) = r.outbox ++ outbox_all rs

  module _ (is_match : R → String → Bool) where
    abbrev pub passes_entry : Entry → Route R → Bool
    passes_entry e r =
        elim r.filter [ none ↦ true | some f ↦ matches_entry is_match f e ]
        && elim r.exclude [ none ↦ true | some x ↦ not (matches_entry is_match x e) ]

    abbrev pub passes_tweet : Tweet → Route R → Bool
    passes_tweet t r =
        elim r.filter [ none ↦ true | some f ↦ matches_tweet is_match f t ]
        && elim r.exclude [ none ↦ true | some x ↦ not (matches_tweet is_match x t) ]

    unfoldable pub route_entry : Router R → String → Entry → List Outbox
    route_entry r topic e =
        outbox_all (retain (passes_entry e) (routes_or_nil (get r (TopicId.feed topic))))

    unfoldable pub route_tweet : Router R → Tweet → List Outbox
    route_tweet r t =
        outbox_all (retain (passes_tweet t) (routes_or_nil (get r (TopicId.twitter t.user))))
