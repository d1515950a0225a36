-- ===== src/App/Requests/Routed.antt =====
-- The requests for the outboxes that the router leads to.
use pipitor.Base.{
  String, Bool, true, List, [], ◌∷◌, ◌++◌, map, retain, Option, none, some, ◌≡◌, refl, sym, subst,
  arith, All, All-append, All-map, Bool-cases, inl, inr,
}
use pipitor.Base.Int.{ℤ, int_eq, int_eq_iff}
use pipitor.Manifest.{
  TopicId, Outbox, Rule, Route, Twitter, Manifest, topic_eq, outboxes_of, outboxes,
  twitter_outboxes, outbox_user,
}
use pipitor.Manifest.Matching.{Entry, Tweet}
use pipitor.Router.{from_manifest, outbox_all, route_entry, route_tweet, passes_entry, passes_tweet}
use pipitor.Router.Routes.{times, routes_for, route-from_manifest}
use pipitor.App.Core.{
  users, Core, Token, ok, has_token, find_token, unwrap, twitter_access_token, twitter_token,
}
use pipitor.App.Core.Tokens.{is_user, All-int_in}
use pipitor.App.Requests.{Signed, send}

has_token-find :
    (u : ℤ) (ts : List Token)
    → has_token u ts ≡ true
    → (t : Token) × (find_token u ts ≡ some t) × (t.id ≡ u)
has_token-find u [] h = absurd (cc h)
has_token-find u (t ∷ ts) h = elim (Bool-cases (int_eq t.id u)) [
  | inl e ↦ (t, rw e refl, (int_eq_iff t.id u).0 e)
  | inr e ↦ rw e (has_token-find u ts (rw e at h))
]

All-append_split {ℓ κ} :
    {A : Type ℓ} (P : A → Type κ) (xs ys : List A) → All P (xs ++ ys) → All P xs × All P ys
All-append_split P [] ys h = (tt, h)
All-append_split P (x ∷ xs) ys h = let (l, r) = All-append_split P xs ys h.1 in ((h.0, l), r)

All-of_map {ℓ κ ι} :
    {A : Type ℓ} {B : Type κ} (P : B → Type ι) (f : A → B) (xs : List A)
    → All P (map f xs)
    → All (λ x. P (f x)) xs
All-of_map P f [] h = tt
All-of_map P f (x ∷ xs) h = (h.0, All-of_map P f xs h.1)

module _ {R : Type 0} (Q : Outbox → Type 0) (p : Route R → Bool) (topic : TopicId) where
  outbox_all-times :
      (ts : List TopicId) (route : Route R) (rest : List (Route R))
      → All Q route.outbox
      → All Q (outbox_all (retain p rest))
      → All Q (outbox_all (retain p (times topic ts route ++ rest)))
  unfolding times
  outbox_all-times [] route rest h k = k
  outbox_all-times (t ∷ ts) route rest h k = elim (Bool-cases (topic_eq t topic)) [
    | inr e ↦ rw e (outbox_all-times ts route rest h k)
    | inl e ↦ elim (Bool-cases (p route)) [
      | inl passes ↦
          rw (e, passes) (All-append Q route.outbox _ h (outbox_all-times ts route rest h k))
      | inr fails ↦ rw (e, fails) (outbox_all-times ts route rest h k)
    ]
  ]

  -- What holds of all outboxes of the rules holds of those that a topic's routes lead to.
  outbox_all-routes_for :
      (rules : List (Rule R))
      → All Q (outboxes_of rules)
      → All Q (outbox_all (retain p (routes_for topic rules)))
  unfolding outboxes_of routes_for
  outbox_all-routes_for [] h = tt
  outbox_all-routes_for (r ∷ rules) h =
      let (here, later) = All-append_split Q r.route.outbox (outboxes_of rules) h in
      outbox_all-times r.topics r.route (routes_for topic rules) here
        (outbox_all-routes_for rules later)

module _ {R Q : Type 0} (c : Core R) (config : Twitter) (q : Q) where
  -- The request is signed by the manifest's client and the user's token.
  abbrev pub IsSigned : Option ℤ → ℤ → Type 0
  IsSigned user u =
      (s : Signed Q) × (send c user q ≡ ok s)
      × (s.client ≡ config.identifier)
      × (s.token.id ≡ u)
      × (s.request ≡ q)

  -- A lookup that finds the user's token.
  signed :
      (user : Option ℤ) (u : ℤ) (t : Token)
      → twitter_token c user ≡ some (config.identifier, t)
      → t.id ≡ u
      → IsSigned user u
  unfolding send unwrap
  signed user u t e same =
      (record { client = config.identifier; token = t; request = q }, rw e refl, refl, same, refl)

  send-IsSigned :
      (u : ℤ)
      → c.manifest.twitter ≡ some config
      → has_token u c.twitter_tokens ≡ true
      → IsSigned (some u) u
  unfolding twitter_token twitter_access_token
  send-IsSigned u e h =
      let (t, found, same) = has_token-find u c.twitter_tokens h in
      signed (some u) u t (ground arith) same

  send-own :
      c.manifest.twitter ≡ some config
      → has_token config.user c.twitter_tokens ≡ true
      → IsSigned none config.user
  unfolding twitter_token twitter_access_token
  send-own e h =
      let (t, found, same) = has_token-find config.user c.twitter_tokens h in
      signed none config.user t (ground arith) same

module _ {R Q : Type 0} (is_match : R → String → Bool) where
  -- The requests for the outboxes that a router of the manifest leads to, if its users have tokens.
  pub routed-IsSigned :
      (c : Core R) (config : Twitter) (q : Q) (topic : String) (entry : Entry) (tweet : Tweet)
      → c.manifest.twitter ≡ some config
      → c.router ≡ from_manifest c.manifest
      → ((u : ℤ) → is_user c.manifest u ≡ true → has_token u c.twitter_tokens ≡ true)
      → IsSigned c config q none config.user
        × All
            (λ o. IsSigned c config q (some (outbox_user o)) (outbox_user o))
            (route_entry is_match c.router topic entry)
        × All
            (λ o. IsSigned c config q (some (outbox_user o)) (outbox_user o))
            (route_tweet is_match c.router tweet)
  unfolding twitter_outboxes outboxes is_user
  routed-IsSigned c config q topic entry tweet e router authorized =
      let m : Manifest R = c.manifest in
      let (for_outboxes, own) =
        All-append_split (λ u. has_token u c.twitter_tokens ≡ true) (twitter_outboxes m)
          (config.user ∷ [])
          (All-int_in (λ u. has_token u c.twitter_tokens) (users m config)
            (λ u k. authorized u (rw (is_user, e) k))) in
      let signed_as : Outbox → Type 0 =
        λ o. IsSigned c config q (some (outbox_user o)) (outbox_user o) in
      let signs : All signed_as (outboxes_of m.rule) =
        All-map (λ o k. send-IsSigned c config q (outbox_user o) e k) (outboxes_of m.rule)
          (All-of_map (λ u. has_token u c.twitter_tokens ≡ true) outbox_user (outboxes_of m.rule)
            for_outboxes) in
      let (entries, tweets) = route-from_manifest is_match m topic entry tweet in
      (
        send-own c config q e own.0,
        subst (λ r. All signed_as (route_entry is_match r topic entry)) (sym router)
            (rw entries (
              outbox_all-routes_for signed_as (passes_entry is_match entry) (TopicId.feed topic)
                m.rule signs)),
        subst (λ r. All signed_as (route_tweet is_match r tweet)) (sym router)
            (rw tweets (
              outbox_all-routes_for signed_as (passes_tweet is_match tweet)
                (TopicId.twitter tweet.user) m.rule signs)),
      )
