-- ===== src/App/Running/Polled.antt =====
-- What a poll of the application, src/app.rs, does, as a sequence of sends.
use pipitor.Base.{
  ℕ, suc, Bool, true, false, List, [], ◌∷◌, ◌++◌, ◌==◌, map, length, String, Option, none, some,
  if◌then◌else◌, ◌≡◌, refl, subst, ◌∙◌, Bool-cases, inl, inr,
}
use pipitor.Manifest.{Manifest}
use pipitor.Manifest.Matching.{Tweet}
use pipitor.Twitter.ListTimeline.{Timeline, finished, pending, poll_next}
use pipitor.App.Running.{
  just, nothing, malformed, Streamed, event, closed, broken, quiet, Updates, update, failing, idle,
  Running, Work, tweets, feed, tweet, listener, stream, json, Poll, waiting, done, failed, send,
  poll_list, poll_websub, will_process, poll_stream, poll_twitter, streams, fuel, with_websub,
  poll_rest, poll,
}

-- The application with its streams replaced.
abbrev pub with_streams :
    {R : Type 0} → Option Timeline → Option Updates → Option Streamed → Running R → Running R
with_streams l u s a = record a { twitter_list = l; websub = u; twitter = s }

abbrev pub emptied : Option Timeline → Option Timeline
emptied none = none
emptied (some t) = some (record t { sender = record t.sender { queue = [] } })

-- Whether the list is at its end once its channel is empty.
abbrev pub at_end : Option Timeline → Bool
at_end none = true
at_end (some t) = t.senders == 0

-- The Tweets that wait in the channel of the list.
abbrev pub pages : Option Timeline → List Work
pages none = []
pages (some t) = map tweets t.sender.queue

-- The updates of the subscriber up to where it is not ready.
unfoldable pub feeds : Updates → List Work
feeds (update topic es rest) = feed topic es ∷ feeds rest
feeds failing = []
feeds idle = []

unfoldable pub rest_of : Updates → Updates
rest_of (update topic es rest) = rest_of rest
rest_of failing = failing
rest_of idle = idle

unfoldable pub fails : Updates → Bool
fails (update topic es rest) = fails rest
fails failing = true
fails idle = false

-- The Tweets of the stream that are to be processed.
unfoldable pub kept : (Tweet → Bool) → Streamed → List Work
kept p (event (just t) rest) = if p t then tweet t ∷ kept p rest else kept p rest
kept p (event nothing rest) = kept p rest
kept p (event malformed rest) = []
kept p closed = []
kept p broken = []
kept p quiet = []

-- How the stream ends, and what is left of it.
unfoldable pub end_of : Streamed → Poll × Option Streamed
end_of (event (just t) rest) = end_of rest
end_of (event nothing rest) = end_of rest
end_of (event malformed rest) = (failed json, some rest)
end_of closed = (done, none)
end_of broken = (failed stream, none)
end_of quiet = (waiting, some quiet)

module _ {R : Type 0} (chars : String → List ℕ) (is_match : R → String → Bool) where
  unfoldable pub send_all : List Work → Running R → Running R
  send_all [] a = a
  send_all (w ∷ ws) a = send_all ws (send chars is_match w a)

  pub send_all-append :
      (xs ys : List Work) (a : Running R) → send_all (xs ++ ys) a ≡ send_all ys (send_all xs a)
  unfolding send_all
  send_all-append [] ys a = refl
  send_all-append (x ∷ xs) ys a = send_all-append xs ys (send chars is_match x a)

  core-send_all : (ws : List Work) (a : Running R) → (send_all ws a).core ≡ a.core
  unfolding send_all send
  core-send_all [] a = refl
  core-send_all (w ∷ ws) a = core-send_all ws (send chars is_match w a)

  module _ (u : Option Updates) (s : Option Streamed) where
    abbrev with_queue : Timeline → List (List Tweet) → Running R → Running R
    with_queue t q = with_streams (some (record t { sender = record t.sender { queue = q } })) u s

    drain-empty :
        (t : Timeline) (a : Running R)
        → poll_list chars is_match 1 (with_queue t [] a)
          ≡ (some (t.senders == 0), with_queue t [] a)
    unfolding poll_list poll_next
    drain-empty t a =
        let t' : Timeline = record t { sender = record t.sender { queue = [] } } in
        elim (Bool-cases (t.senders == 0)) [
          | inl e ↦
              let polled : poll_next (some t') ≡ (finished, some t') = rw (poll_next, e) refl in
              rw (poll_list, polled, e) refl
          | inr e ↦
              let polled : poll_next (some t') ≡ (pending, some t') = rw (poll_next, e) refl in
              rw (poll_list, polled, e) refl
        ]

    drain :
        (q : List (List Tweet)) (t : Timeline) (a : Running R)
        → poll_list chars is_match (suc (length q)) (with_queue t q a)
          ≡ (some (t.senders == 0), with_queue t [] (send_all (map tweets q) a))
    unfolding poll_list poll_next send_all send
    drain [] t a = drain-empty t a
    drain (ts ∷ q) t a = drain q t (send chars is_match (tweets ts) a)

    -- The fuel lasts for the Tweets that wait.
    pub poll_list_lem :
        (l : Option Timeline) (a : Running R)
        → poll_list chars is_match (fuel l) (with_streams l u s a)
          ≡ (some (at_end l), with_streams (emptied l) u s (send_all (pages l) a))
    unfolding poll_list poll_next send_all
    poll_list_lem none a = refl
    poll_list_lem (some t) a = drain t.sender.queue t a

  module _ (l : Option Timeline) where
    poll_websub_lem :
        (u : Updates) (u' : Option Updates) (s : Option Streamed) (a : Running R)
        → poll_websub chars is_match u (with_streams l u' s a)
          ≡ (fails u, with_streams l (some (rest_of u)) s (send_all (feeds u) a))
    unfolding poll_websub feeds fails rest_of send_all send
    poll_websub_lem (update topic es rest) u' s a =
        poll_websub_lem rest u' s (send chars is_match (feed topic es) a)
    poll_websub_lem failing u' s a = refl
    poll_websub_lem idle u' s a = refl

    poll_stream_lem :
        (s : Streamed) (s' : Option Streamed) (u : Option Updates) (a : Running R)
        → poll_stream chars is_match s (with_streams l u s' a) ≡ (
          (end_of s).0,
          with_streams l u (end_of s).1 (send_all (kept (will_process a.core.manifest) s) a),
        )
    unfolding poll_stream kept end_of send_all send
    poll_stream_lem (event (just t) rest) s' u a =
        elim (Bool-cases (will_process a.core.manifest t)) [
          | inl e ↦ rw e (poll_stream_lem rest s' u (send chars is_match (tweet t) a))
          | inr e ↦ rw e (poll_stream_lem rest s' u a)
        ]
    poll_stream_lem (event nothing rest) s' u a = poll_stream_lem rest s' u a
    poll_stream_lem (event malformed rest) s' u a = refl
    poll_stream_lem closed s' u a = refl
    poll_stream_lem broken s' u a = refl
    poll_stream_lem quiet s' u a = refl

  -- What the subscriber and, unless its listener fails, the Streaming API have.
  abbrev pub updates_of : Option Updates → List Work
  updates_of none = []
  updates_of (some u) = feeds u

  abbrev pub left_of : Option Updates → Option Updates
  left_of none = none
  left_of (some u) = some (rest_of u)

  abbrev pub has_failed : Option Updates → Bool
  has_failed none = false
  has_failed (some u) = fails u

  -- The end of a poll, what is left of the stream, and what the stream has sent: the Streaming API is
  -- not polled after a failure of the listener, nor without `stream` in the manifest.
  abbrev pub last_part :
      Bool → Bool → Manifest R → Option Streamed → Poll × Option Streamed × List Work
  last_part true streaming m s = (failed listener, s, [])
  last_part false false m s = (waiting, s, [])
  last_part false true m none = (done, none, [])
  last_part false true m (some s) = ((end_of s).0, (end_of s).1, kept (will_process m) s)

  with_websub_lem :
      (l : Option Timeline) (u : Option Updates) (s : Option Streamed) (a : Running R)
      → with_websub chars is_match u (with_streams l u s a)
        ≡ (has_failed u, with_streams l (left_of u) s (send_all (updates_of u) a))
  unfolding send_all
  with_websub_lem l none s a = refl
  with_websub_lem l (some u) s a = poll_websub_lem l u (some u) s a

  poll_rest_lem :
      (l : Option Timeline) (u : Option Updates) (s : Option Streamed) (a : Running R)
      (failing streaming : Bool)
      → streams a.core.manifest.twitter ≡ streaming
      → poll_rest chars is_match (failing, with_streams l u s a) ≡ (
          let (end, twitter, works) = last_part failing streaming a.core.manifest s in
          (end, with_streams l u twitter (send_all works a)))
  unfolding poll_rest poll_twitter send_all
  poll_rest_lem l u s a true streaming h = refl
  poll_rest_lem l u s a false false h = rw h refl
  poll_rest_lem l u none a false true h = rw h refl
  poll_rest_lem l u (some s) a false true h = rw h (poll_stream_lem l s (some s) u a)

  abbrev works : Running R → List Work
  works a =
      (last_part (has_failed a.websub) (streams a.core.manifest.twitter) a.core.manifest
        a.twitter).2

  -- A poll sends the Tweets that wait in the list, page by page, then the updates of the subscriber, and
  -- then those Tweets of the Streaming API that are to be processed, in this order and with nothing
  -- left out up to where a stream is not ready; it ends with the first failure, and otherwise as the
  -- Streaming API does.
  pub poll_lem :
      (a : Running R)
      → poll chars is_match a ≡ (
          let m : Manifest R = a.core.manifest in
          let (end, twitter, works) =
            last_part (has_failed a.websub) (streams m.twitter) m a.twitter in
          (
            end,
            with_streams
                (emptied a.twitter_list)
                (left_of a.websub)
                twitter
                (send_all (pages a.twitter_list ++ updates_of a.websub ++ works) a),
          ))
  unfolding poll
  poll_lem a = rw (poll_list_lem a.websub a.twitter a.twitter_list a) (
      let sent : Running R = send_all (updates_of a.websub) (send_all (pages a.twitter_list) a) in
      let same : sent.core ≡ a.core =
        core-send_all (updates_of a.websub) (send_all (pages a.twitter_list) a)
        ∙ core-send_all (pages a.twitter_list) a in
      rw
        (
          with_websub_lem (emptied a.twitter_list) a.websub a.twitter
              (send_all (pages a.twitter_list) a),
          send_all-append (pages a.twitter_list ++ updates_of a.websub) (works a) a,
          send_all-append (pages a.twitter_list) (updates_of a.websub) a,
        )
        (subst
          (λ c.
            poll_rest chars is_match (
              has_failed a.websub,
              with_streams (emptied a.twitter_list) (left_of a.websub) a.twitter sent,
            )
            ≡ (let (end, twitter, rest) =
                  last_part (has_failed a.websub) (streams c.manifest.twitter) c.manifest
                    a.twitter in
                (
                  end,
                  with_streams (emptied a.twitter_list) (left_of a.websub) twitter
                      (send_all rest sent),
                )))
          same
          (poll_rest_lem (emptied a.twitter_list) (left_of a.websub) a.twitter sent
            (has_failed a.websub) (streams sent.core.manifest.twitter) refl)))
