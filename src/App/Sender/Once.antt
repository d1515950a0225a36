-- ===== src/App/Sender/Once.antt =====
-- A Tweet is dealt with once.
use pipitor.Base.{
  ℕ, Bool, true, false, not, ◌&&◌, ◌||◌, List, [], ◌∷◌, any, retain, All, ◌≡◌, refl, ◌∙◌, arith,
  inl, inr, ◌⊎◌, subst, Option, none, some,
}
use pipitor.Base.Int.{ℤ, int_eq, int_ltb, int_eq_iff, int_eq_refl}
use pipitor.Manifest.{Outbox, is_nil}
use pipitor.Manifest.Matching.{Tweet}
use pipitor.App.Sender.{
  Tables, TweetRow, nothing, new_tweet, is_processed, replace_tweet, retweet, send_new, send_tweet,
  send_each, finish_retweet, is_ok, is_negligible, Reply, success, twitter_error, other_error,
  same_retweet, remove_ongoing,
}

any-retain_ne :
    (i k : ℤ) (rows : List TweetRow)
    → int_eq k i ≡ false
    → any (λ r. int_eq r.id i) (retain (λ r. not (int_eq r.id k)) rows)
      ≡ any (λ r. int_eq r.id i) rows
any-retain_ne i k [] h = refl
any-retain_ne i k (r ∷ rows) h =
    ground (arith, int_eq_iff r.id k, int_eq_iff r.id i, int_eq_iff k i, any-retain_ne i k rows h)

is_processed-replace_tweet :
    (i : ℤ) (t : TweetRow) (rows : List TweetRow)
    → any (λ r. int_eq r.id i) (replace_tweet t rows)
      ≡ (int_eq t.id i || any (λ r. int_eq r.id i) rows)
unfolding replace_tweet
is_processed-replace_tweet i t rows = ground (arith, any-retain_ne i t.id rows)

module _ (skip_duplicate : Bool) (route_tweet : Tweet → List Outbox) where
  -- Nothing more is to be done for the Tweet: it is recorded, or a retweet, or goes nowhere.
  abbrev pub is_settled : Tweet → Tables → Bool
  is_settled t s =
      is_processed s t.id || t.retweeted_status || (skip_duplicate && is_nil (route_tweet t))

  send_tweet_settled :
      (t : Tweet) (u : Bool) (s : Tables)
      → is_settled t s ≡ true
      → (send_tweet skip_duplicate route_tweet t u s).0 ≡ nothing
  unfolding send_tweet send_new
  send_tweet_settled t u s h = ground arith

  send_tweet-is_settled :
      (t : Tweet) (u : Bool) (s : Tables)
      → is_settled t (send_tweet skip_duplicate route_tweet t u s).1 ≡ true
  unfolding send_tweet send_new retweet new_tweet
  send_tweet-is_settled t u s =
      ground (arith, int_eq_refl t.id, is_processed-replace_tweet t.id (new_tweet t) s.tweets)

  send_tweet-is_processed :
      (t : Tweet) (u : Bool) (s : Tables) (i : ℤ)
      → is_processed s i ≡ true
      → is_processed (send_tweet skip_duplicate route_tweet t u s).1 i ≡ true
  unfolding send_tweet send_new retweet
  send_tweet-is_processed t u s i h =
      ground (arith, is_processed-replace_tweet i (new_tweet t) s.tweets)

  send_tweet-keeps-settled :
      (t t' : Tweet) (u : Bool) (s : Tables)
      → is_settled t s ≡ true
      → is_settled t (send_tweet skip_duplicate route_tweet t' u s).1 ≡ true
  send_tweet-keeps-settled t t' u s h = ground (arith, send_tweet-is_processed t' u s t.id)

  send_each-keeps-settled :
      (t : Tweet) (ts : List Tweet) (s : Tables)
      → is_settled t s ≡ true
      → is_settled t (send_each skip_duplicate route_tweet ts s).1 ≡ true
  unfolding send_each
  send_each-keeps-settled t [] s h = h
  send_each-keeps-settled t (t' ∷ ts) s h =
      send_each-keeps-settled t ts (send_tweet skip_duplicate route_tweet t' (is_nil ts) s).1
        (send_tweet-keeps-settled t t' (is_nil ts) s h)

  -- All Tweets of a batch are settled after it.
  send_each-settled :
      (ts : List Tweet) (s : Tables)
      → All (λ t. is_settled t (send_each skip_duplicate route_tweet ts s).1 ≡ true) ts
  unfolding send_each
  send_each-settled [] s = tt
  send_each-settled (t ∷ ts) s =
      let s' : Tables = (send_tweet skip_duplicate route_tweet t (is_nil ts) s).1 in
      (
        send_each-keeps-settled t ts s' (send_tweet-is_settled t (is_nil ts) s),
        send_each-settled ts s',
      )

  All-keeps-settled :
      (t' : Tweet) (u : Bool) (s : Tables) (ts : List Tweet)
      → All (λ t. is_settled t s ≡ true) ts
      → All (λ t. is_settled t (send_tweet skip_duplicate route_tweet t' u s).1 ≡ true) ts
  All-keeps-settled t' u s [] h = tt
  All-keeps-settled t' u s (t ∷ ts) h =
      (send_tweet-keeps-settled t t' u s h.0, All-keeps-settled t' u s ts h.1)

  send_each-nothing :
      (ts : List Tweet) (s : Tables)
      → All (λ t. is_settled t s ≡ true) ts
      → All (λ task. task ≡ nothing) (send_each skip_duplicate route_tweet ts s).0
  unfolding send_each
  send_each-nothing [] s h = tt
  send_each-nothing (t ∷ ts) s h =
      let u = is_nil ts in
      (
        send_tweet_settled t u s h.0,
        send_each-nothing ts (send_tweet skip_duplicate route_tweet t u s).1
            (All-keeps-settled t u s ts h.1),
      )

  -- A batch of Tweets that arrives again, by the list or by the stream, after any other batch in
  -- between, leads to no second retweet of any of its Tweets.
  pub send_each_again :
      (ts between : List Tweet) (s : Tables)
      → let s' = (send_each skip_duplicate route_tweet ts s).1 in
        let s'' = (send_each skip_duplicate route_tweet between s').1 in
        All (λ task. task ≡ nothing) (send_each skip_duplicate route_tweet ts s'').0
  send_each_again ts between s =
      let s' : Tables = (send_each skip_duplicate route_tweet ts s).1 in
      send_each-nothing ts _ (after_between ts s' (send_each-settled ts s))
    where
      after_between :
          (xs : List Tweet) (q : Tables)
          → All (λ t. is_settled t q ≡ true) xs
          → All (λ t. is_settled t (send_each skip_duplicate route_tweet between q).1 ≡ true) xs
      after_between [] q h = tt
      after_between (t ∷ xs) q h = (send_each-keeps-settled t between q h.0, after_between xs q h.1)

  last_tweet-send_tweet :
      (t : Tweet) (s : Tables)
      → ((send_tweet skip_duplicate route_tweet t false s).1.last_tweet ≡ s.last_tweet)
        × (((send_tweet skip_duplicate route_tweet t true s).1.last_tweet ≡ s.last_tweet)
            ⊎ (((send_tweet skip_duplicate route_tweet t true s).1.last_tweet ≡ t.id)
                × (int_ltb s.last_tweet t.id ≡ true)))
  unfolding send_tweet send_new retweet
  last_tweet-send_tweet t s = (ground arith, ground arith)

  -- The newest Tweet of a batch, which is sent last.
  abbrev pub newest : List Tweet → Option Tweet
  newest [] = none
  newest (t ∷ []) = some t
  newest (t ∷ t' ∷ ts) = newest (t' ∷ ts)

  -- Over a batch the id of the last Tweet stays, or rises to that of the newest Tweet.
  last_tweet-send_each :
      (ts : List Tweet) (s : Tables)
      → let s' = (send_each skip_duplicate route_tweet ts s).1 in
        (s'.last_tweet ≡ s.last_tweet)
        ⊎ ((t : Tweet) × (newest ts ≡ some t)
            × (s'.last_tweet ≡ t.id)
            × (int_ltb s.last_tweet t.id ≡ true))
  unfolding send_each
  last_tweet-send_each [] s = inl refl
  last_tweet-send_each (t ∷ []) s = elim ((last_tweet-send_tweet t s).1) [
    | inl e ↦ inl e
    | inr (e, lt) ↦ inr (t, refl, e, lt)
  ]
  last_tweet-send_each (t ∷ t' ∷ ts) s =
      let s' : Tables = (send_tweet skip_duplicate route_tweet t false s).1 in
      let same = (last_tweet-send_tweet t s).0 in
      elim (last_tweet-send_each (t' ∷ ts) s') [
        | inl e ↦ inl (e ∙ same)
        | inr (n, found, e, lt) ↦
            inr (n, found, e, subst (λ (z : ℤ). int_ltb z n.id ≡ true) same lt)
      ]

-- A retweet's row is there.
abbrev pub is_ongoing : ℤ → ℤ → Tables → Bool
is_ongoing id user s = any (same_retweet id user) s.ongoing

any-remove_ongoing :
    (id user i u : ℤ) (rows : List (ℤ × ℤ))
    → any (same_retweet i u) (remove_ongoing id user rows)
      ≡ (not (int_eq id i && int_eq user u) && any (same_retweet i u) rows)
any-remove_ongoing id user i u [] = ground arith
any-remove_ongoing id user i u ((j, v) ∷ rows) = ground (
  arith,
  int_eq_iff j i,
  int_eq_iff v u,
  int_eq_iff j id,
  int_eq_iff v user,
  int_eq_iff id i,
  int_eq_iff user u,
  any-remove_ongoing id user i u rows,
)

module _ (already_retweeted no_status_found : ℕ) where
  -- The row of a retweet goes when the request succeeds, and the tables stay as they are after an
  -- error that is not Twitter's. After an error of Twitter's the row goes exactly when no code of
  -- the error is negligible. The rows of the other retweets stay in every case.
  pub finish_retweet-is_ongoing :
      (id user i u : ℤ) (s : Tables) (codes : List ℕ) (reply : Reply)
      → let finish = finish_retweet already_retweeted no_status_found id user in
        (is_ongoing id user (finish success s) ≡ false)
        × (finish other_error s ≡ s)
        × (is_ongoing id user (finish (twitter_error codes) s)
            ≡ (any (is_negligible already_retweeted no_status_found) codes && is_ongoing id user s))
        × (is_ongoing i u (finish reply s) ≡ (
            not (is_ok already_retweeted no_status_found reply && (int_eq id i && int_eq user u))
            && is_ongoing i u s))
  unfolding finish_retweet
  finish_retweet-is_ongoing id user i u s codes reply = (
    ground (arith, any-remove_ongoing id user id user s.ongoing, int_eq_refl id, int_eq_refl user),
    refl,
    ground (arith, any-remove_ongoing id user id user s.ongoing, int_eq_refl id, int_eq_refl user),
    ground (arith, any-remove_ongoing id user i u s.ongoing),
  )
