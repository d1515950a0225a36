-- ===== src/Delivery/Complete.antt =====
-- The updates that a poll of the application does not miss.
use pipitor.Base.{
  ℕ, String, Bool, true, false, List, [], ◌∷◌, any, retain, Option, some, ◌≡◌, refl, sym, ap, ◌∙◌,
  subst, arith,
}
use mathlib.Core.List.{Memᴰ}
use mathlib.Core.List.Memᴰ
use pipitor.Manifest.{TopicId, Outbox, Manifest, outbox_user, is_nil}
use pipitor.Manifest.Matching.{Entry, Tweet}
use pipitor.Router.{from_manifest, outbox_all, passes_entry, route_entry}
use pipitor.Router.Routes.{routes_for, route_entry-from_manifest}
use pipitor.App.Sender.{Tables, retweet, with_last, send_new, send_tweet, send_each}
use pipitor.App.Sender.Entries.{Update, is_row_of, send_entry, send_feed, send_link, status}
use pipitor.App.Running.{
  Running, Updates, Sent, updates, Work, tweets, feed, tweet, Poll, send, perform, poll,
}
use pipitor.App.Running.Polled.{feeds, send_all, poll_lem, updates_of, pages}

-- Tweets leave the rows of the entries.
module _ (skip : Bool) (route : Tweet → List Outbox) where
  entries-send_new : (t : Tweet) (s : Tables) → (send_new skip route t s).1.entries ≡ s.entries
  unfolding send_new retweet
  entries-send_new t s = ground arith

  entries-send_tweet :
      (t : Tweet) (u : Bool) (s : Tables) → (send_tweet skip route t u s).1.entries ≡ s.entries
  unfolding send_tweet
  entries-send_tweet t u s =
      let last : (with_last skip route u t s).entries ≡ s.entries = ground arith in
      ground (arith, entries-send_new t (with_last skip route u t s))

  entries-send_each :
      (ts : List Tweet) (s : Tables) → (send_each skip route ts s).1.entries ≡ s.entries
  unfolding send_each
  entries-send_each [] s = refl
  entries-send_each (t ∷ ts) s =
      entries-send_each ts (send_tweet skip route t (is_nil ts) s).1
      ∙ entries-send_tweet t (is_nil ts) s

-- The update of an entry with a link for an outbox.
abbrev pub update_for : (String → List ℕ) → Entry → String → Outbox → Update
update_for chars e link o = record { user = outbox_user o; text = status chars e.title link }

module _ (chars : String → List ℕ) (route : String → Entry → List Outbox) where
  send_feed-mem :
      (topic link : String) (e : Entry) (o : Outbox) (s : Tables) (es : List Entry)
      → Memᴰ e es
      → e.link ≡ some link
      → any (is_row_of topic e.id link) s.entries ≡ false
      → Memᴰ o (route topic e)
      → Memᴰ (update_for chars e link o) (send_feed chars route topic es s)
  unfolding send_feed send_entry
  send_feed-mem topic link e o s [] k l fresh m = elim k [ ]
  send_feed-mem topic link e o s (x ∷ es) (Memᴰ.head same) l fresh m =
      Memᴰ.append_left (send_feed chars route topic es s) (
        subst (λ (y : Entry). Memᴰ (update_for chars e link o) (send_entry chars route topic y s))
          same
          (subst
            (λ (x : Option String).
              Memᴰ (update_for chars e link o) (send_link chars route topic e x s))
            (sym l) (rw fresh (Memᴰ.map (update_for chars e link) m))))
  send_feed-mem topic link e o s (x ∷ es) (Memᴰ.tail k) l fresh m =
      Memᴰ.append_right (send_entry chars route topic x s)
        (send_feed-mem topic link e o s es k l fresh m)

module _ {R : Type 0} (chars : String → List ℕ) (is_match : R → String → Bool) where
  entries-send :
      (w : Work) (a : Running R) → (send chars is_match w a).tables.entries ≡ a.tables.entries
  unfolding send perform
  entries-send (tweets ts) a = entries-send_each _ _ _ a.tables
  entries-send (feed topic es) a = refl
  entries-send (tweet t) a = entries-send_tweet _ _ t true a.tables

  send_all-mem :
      (ws : List Work) (a : Running R) {x : Sent}
      → Memᴰ x a.sent
      → Memᴰ x (send_all chars is_match ws a).sent
  unfolding send_all send
  send_all-mem [] a m = m
  send_all-mem (w ∷ ws) a m = send_all-mem ws (send chars is_match w a) (Memᴰ.append_left _ m)

  -- The updates of a feed among the works, with the rows of the entries as they were.
  abbrev Sends : Running R → Running R → String → List Entry → Type 0
  Sends a a' topic es =
      (s : Tables) × (s.entries ≡ a.tables.entries)
      × Memᴰ (updates (send_feed chars (route_entry is_match a.core.router) topic es s)) a'.sent

  send_all-Sends :
      (ws : List Work) (topic : String) (es : List Entry) (a : Running R)
      → Memᴰ (feed topic es) ws
      → Sends a (send_all chars is_match ws a) topic es
  unfolding send_all send perform
  send_all-Sends [] topic es a k = elim k [ ]
  send_all-Sends (w ∷ ws) topic es a (Memᴰ.head same) =
      subst (λ x. Sends a (send_all chars is_match ws (send chars is_match x a)) topic es) same
        (
          a.tables,
          refl,
          send_all-mem ws (send chars is_match (feed topic es) a)
              (Memᴰ.append_right a.sent (Memᴰ.head refl)),
        )
  send_all-Sends (w ∷ ws) topic es a (Memᴰ.tail k) =
      let (s, rows, m) = send_all-Sends ws topic es (send chars is_match w a) k in
      (s, rows ∙ entries-send w a, m)

  -- Every entry of a feed that the subscriber yields, with a link, gets its update for each outbox of
  -- the rules that select it, unless a row has its link, or its topic and id.
  pub poll-delivers :
      (a : Running R) (m : Manifest R) (u : Updates) (topic link : String) (es : List Entry)
      (e : Entry) (o : Outbox)
      → a.core.router ≡ from_manifest m
      → a.websub ≡ some u
      → Memᴰ (feed topic es) (feeds u)
      → Memᴰ e es
      → e.link ≡ some link
      → any (is_row_of topic e.id link) a.tables.entries ≡ false
      → Memᴰ o
          (outbox_all (retain (passes_entry is_match e) (routes_for (TopicId.feed topic) m.rule)))
      → (us : List Update) × Memᴰ (updates us) (poll chars is_match a).1.sent
        × Memᴰ (update_for chars e link o) us
  poll-delivers a m u topic link es e o router is_u f k l fresh selected =
      let yielded : Memᴰ (feed topic es) (updates_of chars is_match a.websub) =
        subst (λ (x : Option Updates). Memᴰ (feed topic es) (updates_of chars is_match x))
          (sym is_u) f in
      let (s, rows, sent) =
        send_all-Sends _ topic es a
          (Memᴰ.append_left _ (Memᴰ.append_right (pages a.twitter_list) yielded)) in
      let routed : Memᴰ o (route_entry is_match a.core.router topic e) =
        subst (λ (os : List Outbox). Memᴰ o os)
          (sym (
            ap (λ r. route_entry is_match r topic e) router
            ∙ route_entry-from_manifest is_match m topic e))
          selected in
      let us : List Update = send_feed chars (route_entry is_match a.core.router) topic es s in
      (
        us,
        subst (λ (r : Poll × Running R). Memᴰ (updates us) r.1.sent)
            (sym (poll_lem chars is_match a)) sent,
        send_feed-mem chars (route_entry is_match a.core.router) topic link e o s es k l
            (ap (any (is_row_of topic e.id link)) rows ∙ fresh) routed,
      )
