-- ===== src/Websub/Lifecycle/Crashes.antt =====
-- What is left by the operations that panic at a hub that is no URI, and by those that remove rows.
use pipitor.Base.{
  str_eq, ap, ℕ, String, true, false, not, ◌&&◌, List, [], ◌∷◌, ◌++◌, ◌==◌, Option, none, some, ◌≡◌,
  refl, sym, ◌∙◌, subst, arith, Bool-cases, inl, inr,
}
use pipitor.Websub.Callback.{Library}
use pipitor.Websub.Address.{Uri, make_callback}
use pipitor.Websub.Store.{Db, Subscription, is_active, delete_subscriptions, IsValid}
use pipitor.Websub.Hub.{
  Form, Request, Outcome, done, crashed, panic, starved, send_each, unsubscribe, unsubscribe_all,
}
use pipitor.Websub.Service.{Verify, Verified, has_row, verify_intent}
use pipitor.Websub.Service.Intent.{
  old_of, without_old, can_leave, verify_intent_accepts, verify_intent_crash,
}
use pipitor.Websub.Lifecycle.{left, one, many, IsAsked}
use pipitor.Websub.Lifecycle.Effects.{some-injective, left-after}
use pipitor.Websub.Lifecycle.Endings.{Forgets, Leaves, without_old-Forgets, without_old-Leaves}

data_of_crash : Outcome Verified → List Request × Db → List Request × Db
data_of_crash (crashed rs d) q = (rs, d)
data_of_crash (done v) q = q
data_of_crash panic q = q
data_of_crash starved q = q

crashed-injective :
    (x y : List Request × Db) (o : Outcome Verified)
    → o ≡ crashed x.0 x.1
    → o ≡ crashed y.0 y.1
    → x ≡ y
unfolding data_of_crash
crashed-injective x y o h k = ap (λ z. data_of_crash z x) (sym h) ∙ ap (λ z. data_of_crash z x) k

module _ (b : Library) (callback : Uri) where
  -- A verification that panics removes the old subscription of a renewal, if anything.
  pub verify_intent-crash :
      (margin now id : ℕ) (q : Option Verify) (rs sent : List Request) (d d' : Db)
      → IsValid d
      → IsAsked b callback sent d
      → verify_intent b callback margin now id q d ≡ crashed rs d'
      → Forgets b callback (rs ++ sent) d d' × Leaves id d d'
  unfolding verify_intent
  verify_intent-crash margin now id none rs sent d d' v a h = absurd (cc h)
  verify_intent-crash margin now id (some (Verify.subscribes topic challenge lease)) rs sent d d' v
        a h =
      elim (Bool-cases (has_row d id topic && not (is_active d id))) [
        | inr e ↦ absurd (cc (rw e at h))
        | inl e ↦
            let (row, idle) : (has_row d id topic ≡ true) × (is_active d id ≡ false) =
              ground arith in
            elim (Bool-cases (can_leave b id d (old_of id d))) [
              | inl c ↦
                  let (_, run, _, _, _, _, _) =
                    verify_intent_accepts b callback id topic d v row idle margin now lease
                      challenge c in
                  absurd (cc (sym run ∙ h))
              | inr c ↦
                  let end : ([], without_old (old_of id d) d) ≡ (rs, d') =
                    crashed-injective _ _ _
                      (verify_intent_crash b callback id topic d v row idle margin now lease
                        challenge c)
                      h in
                  subst
                    (λ (p : List Request × Db).
                      Forgets b callback (p.0 ++ sent) d p.1 × Leaves id d p.1)
                    end
                    (
                      without_old-Forgets b callback (old_of id d) sent d v a,
                      without_old-Leaves (old_of id d) id d refl,
                    )
            ]
      ]
  verify_intent-crash margin now id (some (Verify.unsubscribes topic challenge)) rs sent d d' v a
        h =
      elim (Bool-cases (not (has_row d id topic))) [
        | inl e ↦ absurd (cc (rw e at h))
        | inr e ↦ absurd (cc (rw e at h))
      ]

  -- Whether or not the hub is a URI, the row is deleted.
  pub left-unsubscribe :
      (id : ℕ) (hub topic : String) (d : Db) (rs : List Request) (d' : Db)
      → left one (unsubscribe b callback id hub topic d) ≡ some (rs, d')
      → delete_subscriptions (λ s. s.id == id) d ≡ d'
  unfolding unsubscribe
  left-unsubscribe id hub topic d rs d' h = elim (Bool-cases (b.is_uri hub)) [
    | inl e ↦ ap (λ p. p.1) (some-injective (rw e at h))
    | inr e ↦ ap (λ p. p.1) (some-injective (rw e at h))
  ]

  left-send_each :
      (topic : String) (rows : List Subscription) (d : Db) (rs : List Request) (d' : Db)
      → left many (send_each b callback topic rows d) ≡ some (rs, d')
      → d ≡ d'
  unfolding send_each
  left-send_each topic [] d rs d' h = ap (λ p. p.1) (some-injective h)
  left-send_each topic (s ∷ rows) d rs d' h = elim (Bool-cases (b.is_uri s.hub)) [
    | inl e ↦
        let (rest, run, _) =
          left-after
            (record { hub = s.hub; form = Form.unsubscribes (make_callback b callback s.id) topic }
              ∷ [])
            (send_each b callback topic rows d) (rw e at h) in
        left-send_each topic rows d rest d' run
    | inr e ↦ ap (λ p. p.1) (some-injective (rw e at h))
  ]

  pub left-unsubscribe_all :
      (topic : String) (d : Db) (rs : List Request) (d' : Db)
      → left many (unsubscribe_all b callback topic d) ≡ some (rs, d')
      → delete_subscriptions (λ s. str_eq s.topic topic) d ≡ d'
  unfolding unsubscribe_all
  left-unsubscribe_all topic d rs d' h = left-send_each topic _ _ rs d' h
