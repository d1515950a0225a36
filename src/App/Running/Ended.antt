-- ===== src/App/Running/Ended.antt =====
-- The shutdown and the reset of the application, src/app.rs: what they wait for and what they leave.
use pipitor.Base.{
  ℕ, Bool, true, ◌&&◌, List, [], ◌∷◌, ◌==◌, String, Option, none, some, ◌≡◌, refl, subst, sym, ◌∙◌,
  &&-eq-true, ==_iff, Option-cases, ap, Bool-cases, inl, inr,
}
use pipitor.Twitter.ListTimeline.{Timeline, finished, poll_next, shutdown}
use pipitor.App.Core.{Stream, Connection, ok, bind-ok, init_twitter}
use pipitor.App.Running.{Streamed, Running, Work, send, poll_shutdown, reset, reopened}
use pipitor.App.Running.Polled.{with_streams, emptied, at_end, pages, send_all, poll_list_lem}

-- The list has come to its end, and further polls of it change nothing.
abbrev IsOver : Option Timeline → Type 0
IsOver l = poll_next l ≡ (finished, l)

at_end-IsOver : (l : Option Timeline) → at_end l ≡ true → IsOver (emptied l)
unfolding poll_next
at_end-IsOver none h = refl
at_end-IsOver (some t) h = rw h refl

module _ {R : Type 0} (chars : String → List ℕ) (is_match : R → String → Bool) where
  handles-send_all :
      (ws : List Work) (a : Running R) → (send_all chars is_match ws a).handles ≡ a.handles
  unfolding send_all send
  handles-send_all [] a = refl
  handles-send_all (w ∷ ws) a = handles-send_all ws (send chars is_match w a)

  -- A call of `poll_shutdown` sends the Tweets that still wait in the list, and is ready if the list
  -- is then at its end, no backfill or request being under way, and no task holds a handle.
  pub poll_shutdown_lem :
      (a : Running R)
      → poll_shutdown chars is_match a ≡ (
          let list : Option Timeline = shutdown a.twitter_list in
          (
            at_end list && a.handles == 1,
            with_streams (emptied list) a.websub a.twitter (send_all chars is_match (pages list) a),
          ))
  unfolding poll_shutdown
  poll_shutdown_lem a =
      rw (poll_list_lem chars is_match a.websub a.twitter (shutdown a.twitter_list) a)
        (elim (Bool-cases (at_end (shutdown a.twitter_list))) [
          | inl e ↦ rw (e, handles-send_all (pages (shutdown a.twitter_list)) a) refl
          | inr e ↦ rw e refl
        ])

  poll_shutdown-IsOver :
      (a a' : Running R)
      → poll_shutdown chars is_match a ≡ (true, a')
      → IsOver a'.twitter_list × (a'.handles ≡ 1)
  poll_shutdown-IsOver a a' h =
      let list : Option Timeline = shutdown a.twitter_list in
      let left : Running R =
        with_streams (emptied list) a.websub a.twitter (send_all chars is_match (pages list) a) in
      let both : (at_end list && a.handles == 1, left) ≡ (true, a') =
        sym (poll_shutdown_lem a) ∙ h in
      let (end, last) = &&-eq-true (at_end list) (a.handles == 1) (ap (λ r. r.0) both) in
      subst (λ r. IsOver r.twitter_list × (r.handles ≡ 1)) (ap (λ r. r.1) both)
        (at_end-IsOver list end, handles-send_all (pages list) a ∙ (==_iff a.handles 1).0 last)

  -- Whoever waits for a reset to end has no list any more: it is at its end, a later poll takes
  -- nothing from it, and no task holds a handle.
  reset-IsOver :
      (connects : Stream → Connection) (opens : Stream → Streamed) (a a' : Running R)
      → reset chars is_match connects opens a ≡ ok (true, a')
      → IsOver a'.twitter_list × (a'.handles ≡ 1)
  unfolding reset
  reset-IsOver connects opens a a' h = elim (Option-cases a.twitter) [
    | inr (s, e) ↦ poll_shutdown-IsOver a a' (cc (rw (reset, e) at h))
    | inl e ↦
        let (twitter, e', h') = bind-ok (init_twitter connects a.core) _ (rw (reset, e) at h) in
        poll_shutdown-IsOver (record a { twitter = reopened opens twitter }) a' (cc h')
  ]
