-- ===== src/Websub/Service/Flow.antt =====
-- The protocol from both ends: what the subscriber answers when the hub verifies a request that
-- the subscriber has sent.
use pipitor.Base.{
  ℕ, ◌/◌, String, Bool, true, false, not, ◌&&◌, List, [], ◌∷◌, ◌==◌, str_eq, any, retain, some, ◌≡◌,
  refl, arith, has, find, none, false, ==_refl, str_eq_refl,
}
use pipitor.Websub.Callback.{Library}
use pipitor.Websub.Address.{Uri, make_callback}
use pipitor.Websub.Store.{
  Db, Subscription, Renewing, has_sub, is_active, is_pending, delete_subscriptions, IsValid,
}
use pipitor.Websub.Store.Integrity.{with_pending, not-new_of_fresh, with_pending-IsValid}
use pipitor.Websub.Hub.{Request, Form, Rng, done, gen_secret, new_row, subscribe}
use pipitor.Websub.Hub.Create.{fresh_draw, fresh_draw-not-taken, create_subscription_lem}
use pipitor.Websub.Service.{
  Verify, Verified, has_row, verify_intent, status_not_found, answered, expiry, refresh_time,
}
use pipitor.Websub.Service.Intent.{verify_intent_accepts, old_of}

not-renewal :
    (n : ℕ) (rs : List Renewing) → has (λ r. r.new) n rs ≡ false → find (λ r. r.new == n) rs ≡ none
not-renewal n [] h = refl
not-renewal n (r ∷ rs) h = ground (arith, not-renewal n rs)

module _ (b : Library) (callback : Uri) (d : Db) where
  module _ (hub topic : String) (rng : Rng) (v : IsValid d) (uri : b.is_uri hub ≡ true) {x : ℕ}
      (e : fresh_draw rng.u64s d ≡ some x) where
    -- The tables after the subscription.
    abbrev pub subscribed : Db
    subscribed = with_pending (new_row b hub topic rng (x / 2)) d

    subscribe_lem :
        subscribe b callback hub topic rng d
        ≡ done (
          record {
            hub = hub;
            form = Form.subscribes (make_callback b callback (x / 2)) topic (gen_secret b rng);
          },
          subscribed,
        )
    unfolding subscribe
    subscribe_lem = rw (create_subscription_lem b hub topic rng d v, e, uri)

    subscribed-IsValid : IsValid subscribed
    subscribed-IsValid = with_pending-IsValid _ d v (fresh_draw-not-taken rng.u64s d e)

    row : has_row subscribed (x / 2) topic ≡ true
    row = rw (==_refl (x / 2), str_eq_refl topic)

    first : old_of (x / 2) subscribed ≡ none
    first =
        not-renewal (x / 2) d.renewing
          (not-new_of_fresh (x / 2) d v (fresh_draw-not-taken rng.u64s d e))

    idle : is_active subscribed (x / 2) ≡ false
    idle = ground (arith, v.covered (x / 2), fresh_draw-not-taken rng.u64s d e)

    -- A subscription at a hub that is a URI is sent under a fresh callback, waits until the hub verifies it, and is
    -- active after that: the flow of `subscribe` and `verify_intent`.
    pub verify_intent-subscribe :
        (margin now lease : ℕ) (challenge : String)
        → (q : Request) × (d' : Db) × (w : Verified) × (subscribe b callback hub topic rng d
            ≡ done (q, d'))
          × (q.form ≡ Form.subscribes (make_callback b callback (x / 2)) topic (gen_secret b rng))
          × (has_sub d (x / 2) ≡ false)
          × (is_pending d' (x / 2) ≡ true)
          × (verify_intent b callback margin now
                (x / 2)
                (some (Verify.subscribes topic challenge lease))
                d'
              ≡ done w)
          × (w.response ≡ record { status = 200; body = challenge })
          × (w.hasten ≡ some (refresh_time margin (expiry now lease)))
          × IsValid w.db
          × (is_active w.db (x / 2) ≡ true)
    verify_intent-subscribe margin now lease challenge =
        let (rs, run, _, v', on, _, _) =
          verify_intent_accepts b callback (x / 2) topic subscribed subscribed-IsValid row idle
            margin now lease challenge (rw first) in
        (
          _,
          subscribed,
          _,
          subscribe_lem,
          refl,
          fresh_draw-not-taken rng.u64s d e,
          ground (arith, ==_refl (x / 2)),
          run,
          refl,
          refl,
          v',
          on,
        )

  -- No row of a deleted set is left.
  has_row-retain :
      (p : Subscription → Bool) (id : ℕ) (topic : String) (rs : List Subscription)
      → ((s : Subscription) → (s.id == id && str_eq s.topic topic) ≡ true → p s ≡ true)
      → any (λ s. s.id == id && str_eq s.topic topic) (retain (λ s. not (p s)) rs) ≡ false
  has_row-retain p id topic [] h = refl
  has_row-retain p id topic (s ∷ rs) h = ground (arith, h s, has_row-retain p id topic rs h)

  -- Once its row is deleted the hub's verification of the unsubscription is confirmed, and a
  -- verification of a subscription under the same id and topic is refused.
  verify_intent-unsubscribe :
      (margin now id lease : ℕ) (topic challenge : String)
      → let d' = delete_subscriptions (λ s. s.id == id) d in
        (verify_intent b callback margin now id (some (Verify.unsubscribes topic challenge)) d'
          ≡ done (answered (record { status = 200; body = challenge }) d'))
        × (verify_intent b callback margin now id
              (some (Verify.subscribes topic challenge lease))
              d'
            ≡ done (answered status_not_found d'))
  unfolding verify_intent delete_subscriptions
  verify_intent-unsubscribe margin now id lease topic challenge =
      let gone : has_row (delete_subscriptions (λ s. s.id == id) d) id topic ≡ false =
        has_row-retain (λ s. s.id == id) id topic d.subscriptions (λ s h. ground arith) in
      (rw gone, rw gone)
