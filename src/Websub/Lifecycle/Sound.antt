-- ===== src/Websub/Lifecycle/Sound.antt =====
-- What holds of every world that the subscriber can reach.
use pipitor.Base.{
  some, ℕ, str_eq, ◌+◌, ◌%◌, ◌^◌, ◌==◌, not, List, [], ◌++◌, Option, ◌≡◌, refl, sym, ap, ◌∙◌, arith,
  Bool-cases, inl, inr, has, ltb,
}
use pipitor.Websub.Callback.{Library}
use pipitor.Websub.Address.{Uri}
use pipitor.Websub.Store.{Db, is_active, IsValid}
use pipitor.Websub.Hub.{Request, Rng}
use pipitor.Websub.Service.{
  Verify, Verified, expiring, renew_subscriptions, remove_dangling_subscriptions,
}
use pipitor.Websub.Lifecycle.{
  World, note, start, Step, subscribes, verifies, verification_crashes, left, many, renews,
  unsubscribes, leaves, restarts, Reach, here, next, IsAsked, IsSound,
}
use pipitor.Websub.Lifecycle.Effects.{Asks, subscribe-Asks, renew_all-Asks}
use pipitor.Websub.Lifecycle.Crashes.{verify_intent-crash, left-unsubscribe, left-unsubscribe_all}
use pipitor.Websub.Lifecycle.Endings.{
  Forgets, Verifies, unsubscribes-Forgets, verify_intent-Verifies,
}

module _ (b : Library) (callback : Uri) where
  pub renew_subscriptions-Asks :
      (margin now : ℕ) (rng : ℕ → Rng) (d d' : Db) (rs sent : List Request)
      → IsValid d
      → IsAsked b callback sent d
      → left many (renew_subscriptions b callback margin now rng d) ≡ some (rs, d')
      → Asks b callback (rs ++ sent) d d'
  unfolding renew_subscriptions
  renew_subscriptions-Asks margin now rng d d' rs sent v a h =
      let t : ℕ = (now + margin + 1) % 2 ^ 64 in
      elim (Bool-cases (ltb t (2 ^ 63))) [
        | inl e ↦ renew_all-Asks b callback rng t (expiring t d) d d' rs sent v refl a (rw e at h)
        | inr e ↦ absurd (cc (rw e at h))
      ]

  Asks-IsSound :
      (w : World) (sent : List Request) (d : Db)
      → IsSound b callback w
      → Asks b callback sent w.db d
      → IsSound b callback (record w { db = d; sent = sent })
  Asks-IsSound w sent d h g = record {
    valid = g.valid;
    asked = g.asked;
    confirmed = λ i k. h.confirmed i (ap (has (λ a. a.id) i) (sym g.same_active) ∙ k);
  }

  Forgets-IsSound :
      (w : World) (sent : List Request) (d : Db)
      → IsSound b callback w
      → Forgets b callback sent w.db d
      → IsSound b callback (record w { db = d; sent = sent })
  Forgets-IsSound w sent d h g = record {
    valid = g.valid;
    asked = g.asked;
    confirmed = λ i k. ground (arith, g.active_left i, h.confirmed i);
  }

  Verifies-IsSound :
      (w : World) (id : ℕ) (q : Option Verify) (v : Verified)
      → IsSound b callback w
      → Verifies b callback id q w.sent w.db v
      → IsSound b callback
          (record { db = v.db; sent = v.requests ++ w.sent; confirmed = note id q v w.confirmed })
  Verifies-IsSound w id q v h (inr (g, e, _)) =
      rw (e w.confirmed) (Forgets-IsSound w (v.requests ++ w.sent) v.db h g)
  Verifies-IsSound w id q v h (inl (g, e, _)) = rw (e w.confirmed) (record {
    valid = g.valid;
    asked = g.asked;
    confirmed = λ i k. ground (arith, g.others i, h.confirmed i);
  })

  -- Every operation keeps a sound world sound.
  pub Step-IsSound :
      {w u : World} → Step b callback w u → IsSound b callback w → IsSound b callback u
  unfolding remove_dangling_subscriptions
  Step-IsSound {w} (subscribes hub topic rng rs d e) h =
      Asks-IsSound w (rs ++ w.sent) d h
        (subscribe-Asks b callback hub topic rng w.db d rs w.sent h.valid h.asked e)
  Step-IsSound {w} (verifies margin now id q v e) h =
      Verifies-IsSound w id q v h
        (verify_intent-Verifies b callback margin now id q w.sent w.db v h.valid h.asked e)
  Step-IsSound {w} (verification_crashes margin now id q rs d e) h =
      Forgets-IsSound w (rs ++ w.sent) d h
        (verify_intent-crash b callback margin now id q rs w.sent w.db d h.valid h.asked e).0
  Step-IsSound {w} (renews margin now rng rs d e) h =
      Asks-IsSound w (rs ++ w.sent) d h
        (renew_subscriptions-Asks margin now rng w.db d rs w.sent h.valid h.asked e)
  Step-IsSound {w} (unsubscribes id hub topic rs d e) h = Forgets-IsSound w (rs ++ w.sent) d h (
      unsubscribes-Forgets b callback (λ s. s.id == id) rs w.sent w.db
        (left-unsubscribe b callback id hub topic w.db rs d e) h.valid h.asked)
  Step-IsSound {w} (leaves topic rs d e) h = Forgets-IsSound w (rs ++ w.sent) d h (
      unsubscribes-Forgets b callback (λ s. str_eq s.topic topic) rs w.sent w.db
        (left-unsubscribe_all b callback topic w.db rs d e) h.valid h.asked)
  Step-IsSound {w} restarts h = Forgets-IsSound w w.sent (remove_dangling_subscriptions w.db) h (
      unsubscribes-Forgets b callback (λ s. not (is_active w.db s.id)) [] w.sent w.db refl h.valid
        h.asked)

  start-IsSound : IsSound b callback start
  start-IsSound = record {
    valid = record {
      subs_unique = tt;
      active_unique = tt;
      pending_unique = tt;
      old_unique = tt;
      new_unique = tt;
      covered = λ i. refl;
      disjoint = λ i. refl;
      linked = tt;
    };
    asked = tt;
    confirmed = λ i k. cc k;
  }

  -- However the operations of the server, the scheduler, the discoveries and the commands follow each
  -- other from empty tables: the tables stay valid, each subscription in them whose hub is a URI
  -- was asked for with a request of its own callback, topic and secret to its hub, and each active one was confirmed.
  pub Reach-IsSound : {w : World} → Reach b callback w → IsSound b callback w
  Reach-IsSound here = start-IsSound
  Reach-IsSound (next r s) = Step-IsSound s (Reach-IsSound r)
