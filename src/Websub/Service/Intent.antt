-- ===== src/Websub/Service/Intent.antt =====
-- The verification of intents: what is accepted, and what it does to valid tables.
use pipitor.Base.{
  ℕ, String, Bool, true, false, not, ◌&&◌, List, [], ◌∷◌, ◌==◌, str_eq, any, find, has, All, Option,
  none, some, ◌≡◌, ◌⊎◌, inl, inr, refl, sym, ap, ◌∙◌, arith, has-retain, ==_refl, Bool-cases,
  any-find, ==_iff,
}
use mathlib.Core.Bool.{false≢true}
use pipitor.Base.Int.{ℤ, pos}
use pipitor.Websub.Callback.{Library}
use pipitor.Websub.Address.{Uri, make_callback}
use pipitor.Websub.Store.{
  Db, Subscription, Renewing, has_sub, is_active, is_pending, delete_subscriptions, delete_pending,
  IsValid,
}
use pipitor.Websub.Store.Integrity.{
  activated, insert_active-delete_pending, activated-IsValid, delete_subscriptions-IsValid,
  is_pending-delete_subscriptions,
}
use pipitor.Websub.Hub.{Request, Form, Outcome, done, crashed, unsubscribe}
use pipitor.Websub.Service.{
  Verify, Verified, has_row, remove_old, verify_intent, expiry, refresh_time, answered,
  status_not_found,
}

pub has_row-has_sub :
    (id : ℕ) (topic : String) (rs : List Subscription)
    → any (λ s. s.id == id && str_eq s.topic topic) rs ≡ true
    → has (λ s. s.id) id rs ≡ true
has_row-has_sub id topic [] h = h
has_row-has_sub id topic (s ∷ rs) h = ground (arith, has_row-has_sub id topic rs)

-- A renewal that `find` shows has an active old subscription.
linked-find :
    (id : ℕ) (d : Db) (rs : List Renewing) (r : Renewing)
    → All (λ q. (is_active d q.old && is_pending d q.new) ≡ true) rs
    → find (λ q. q.new == id) rs ≡ some r
    → (is_active d r.old ≡ true) × (r.new ≡ id)
linked-find id d [] r l h = ground arith
linked-find id d (q ∷ rs) r l h = ground (arith, linked-find id d rs r l.1, l.0)

-- Deleting one subscription takes out its id alone.
pub has_sub-delete :
    (old : ℕ) (d : Db) (i : ℕ)
    → has_sub (delete_subscriptions (λ s. s.id == old) d) i ≡ (not (i == old) && has_sub d i)
unfolding delete_subscriptions
has_sub-delete old d i = has-retain (λ s. s.id) i (λ k. not (k == old)) d.subscriptions

-- An active id is another than one that is not active.
active_ne : (i j : ℕ) (d : Db) → is_active d i ≡ false → is_active d j ≡ true → (i == j) ≡ false
active_ne i j d h k = elim (Bool-cases (i == j)) [
  | inl e ↦ absurd (false≢true (sym h ∙ ap (is_active d) ((==_iff i j).0 e) ∙ k))
  | inr e ↦ e
]

-- The old subscription of the renewal that made `id`, if any.
abbrev pub old_of : ℕ → Db → Option Renewing
old_of id d = find (λ r. r.new == id) d.renewing

-- The tables without the old subscription.
abbrev pub without_old : Option Renewing → Db → Db
without_old none d = d
without_old (some r) d = delete_subscriptions (λ s. s.id == r.old) d

-- The request that takes leave of the old subscription.
abbrev pub IsFarewell : Option Renewing → String → List Request → Type 0
IsFarewell none topic rs = rs ≡ []
IsFarewell (some r) topic rs =
    (q : Request) × (u : Uri) × (rs ≡ q ∷ []) × (q.form ≡ Form.unsubscribes u topic)

-- The hub of the first of some rows is a URI.
abbrev pub has_uri : Library → Option Subscription → Bool
has_uri b none = true
has_uri b (some s) = b.is_uri s.hub

-- If `id` was created by a renewal, a request can be sent to the hub.
abbrev pub can_leave : Library → ℕ → Db → Option Renewing → Bool
can_leave b id d none = true
can_leave b id d (some r) = has_uri b (find (λ s. s.id == id) d.subscriptions)

-- The old subscription has no row any more.
abbrev pub IsGone : Option Renewing → Db → Type 0
IsGone none d = Unit {0}
IsGone (some r) d = has_sub d r.old ≡ false

without_old-IsGone : (o : Option Renewing) (d : Db) → IsGone o (without_old o d)
without_old-IsGone none d = tt
without_old-IsGone (some r) d = ground (arith, has_sub-delete r.old d r.old, ==_refl r.old)

still_disjoint : (i : ℕ) (d : Db) → IsValid d → is_active d i ≡ true → is_pending d i ≡ false
still_disjoint i d v h = ground (arith, v.disjoint i)

activated-IsGone :
    (o : Option Renewing) (i : ℕ) (e : ℤ) (d : Db) → IsGone o d → IsGone o (activated i e d)
unfolding delete_pending
activated-IsGone none i e d g = g
activated-IsGone (some r) i e d g = g

module _ (b : Library) (callback : Uri) (id : ℕ) (topic : String) (d : Db) (v : IsValid d)
    (row : has_row d id topic ≡ true) (idle : is_active d id ≡ false) where
  row_sub : has_sub d id ≡ true
  row_sub = has_row-has_sub id topic d.subscriptions row

  waiting : is_pending d id ≡ true
  waiting = ground (arith, v.covered id, row_sub)

  without_old-IsValid : (o : Option Renewing) → IsValid (without_old o d)
  without_old-IsValid none = v
  without_old-IsValid (some r) = delete_subscriptions-IsValid _ d v

  -- Without a URI the old subscription is removed, and its hub is not told.
  remove_old_crash :
      (o : Option Renewing)
      → old_of id d ≡ o
      → can_leave b id d o ≡ false
      → remove_old b callback id topic d ≡ crashed [] (without_old o d)
  unfolding remove_old unsubscribe
  remove_old_crash none e c = absurd (cc c)
  remove_old_crash (some r) e c =
      let (s, found) = any-find (λ s. s.id == id) d.subscriptions row_sub in
      let bad : b.is_uri s.hub ≡ false = rw found at c in rw (e, found, remove_old, bad) refl

  remove_old_lem :
      (o : Option Renewing)
      → old_of id d ≡ o
      → can_leave b id d o ≡ true
      → (rs : List Request) × (remove_old b callback id topic d ≡ done (rs, without_old o d))
        × IsFarewell o topic rs
        × IsValid (without_old o d)
        × (is_pending (without_old o d) id ≡ true)
  unfolding remove_old unsubscribe
  remove_old_lem none e c = ([], rw (e, remove_old), refl, v, waiting)
  remove_old_lem (some r) e c =
      let (old_active, new_id) = linked-find id d d.renewing r v.linked e in
      let (s, found) = any-find (λ s. s.id == id) d.subscriptions row_sub in
      let good : b.is_uri s.hub ≡ true = rw found at c in
      (
        record { hub = s.hub; form = Form.unsubscribes (make_callback b callback r.old) topic }
            ∷ [],
        rw (e, found, remove_old, good),
        (_, _, refl, refl),
        delete_subscriptions-IsValid _ d v,
        is_pending-delete_subscriptions (λ s. s.id == r.old) d id
            ∙ ground (
              arith,
              has_sub-delete r.old d id,
              row_sub,
              waiting,
              active_ne id r.old d idle old_active,
            ),
      )

  module _ (margin now lease : ℕ) (challenge : String) where
    -- What an accepted subscription leaves.
    abbrev pub accepted : List Request → Verified
    accepted rs = record {
      response = record { status = 200; body = challenge };
      hasten = some (refresh_time margin (expiry now lease));
      requests = rs;
      db = activated id (pos (expiry now lease)) (without_old (old_of id d) d);
    }

    pub verify_intent_accepts :
        can_leave b id d (old_of id d) ≡ true
        → (rs : List Request) × (verify_intent b callback margin now id
              (some (Verify.subscribes topic challenge lease))
              d
            ≡ done (accepted rs))
          × IsFarewell (old_of id d) topic rs
          × IsValid (accepted rs).db
          × (is_active (accepted rs).db id ≡ true)
          × (is_pending (accepted rs).db id ≡ false)
          × IsGone (old_of id d) (accepted rs).db
    unfolding verify_intent
    verify_intent_accepts c =
        let (rs, removed, bye, v', waits) = remove_old_lem (old_of id d) refl c in
        let e : ℤ = pos (expiry now lease) in
        let inserted = insert_active-delete_pending id e (without_old (old_of id d) d) v' waits in
        let valid = activated-IsValid id e (without_old (old_of id d) d) v' waits in
        (
          rs,
          rw (row, idle, removed, inserted),
          bye,
          valid,
          ground (arith, ==_refl id),
          still_disjoint id _ valid (ground (arith, ==_refl id)),
          activated-IsGone (old_of id d) id e _ (without_old-IsGone (old_of id d) d),
        )

    -- The renewal of a subscription at a hub that is no URI removes the old one, and panics.
    pub verify_intent_crash :
        can_leave b id d (old_of id d) ≡ false
        → verify_intent b callback margin now id (some (Verify.subscribes topic challenge lease)) d
          ≡ crashed [] (without_old (old_of id d) d)
    unfolding verify_intent
    verify_intent_crash c = rw (row, idle, remove_old_crash (old_of id d) refl c)

module _ (b : Library) (callback : Uri) (margin now id : ℕ) (d : Db) where
  -- A refusal leaves everything as it was.
  abbrev pub IsRefusal : Verified → Type 0
  IsRefusal w = (w.response ≡ status_not_found) × (w.hasten ≡ none) × (w.requests ≡ []) × (w.db ≡ d)

  -- A panic, in a release build: `id` is a renewal at a hub that is no URI, and its old subscription
  -- is removed.
  abbrev pub IsCrash : Outcome Verified → Type 0
  IsCrash o =
      (can_leave b id d (old_of id d) ≡ false)
      × (o ≡ crashed [] (without_old (old_of id d) d))
      × IsValid (without_old (old_of id d) d)

  -- On valid tables the verification of any request leaves valid tables, in a release build: it
  -- answers 200, or it answers 404 and changes nothing, or, only for the renewal of a subscription at
  -- a hub that is no URI, it removes the old subscription and panics.
  pub verify_intent-IsValid :
      (q : Option Verify)
      → IsValid d
      → ((w : Verified) × (verify_intent b callback margin now id q d ≡ done w)
          × IsValid w.db
          × ((w.response.status ≡ 200) ⊎ IsRefusal w))
        ⊎ IsCrash (verify_intent b callback margin now id q d)
  unfolding verify_intent
  verify_intent-IsValid none v = inl (_, refl, v, inr (refl, refl, refl, refl))
  verify_intent-IsValid (some (Verify.subscribes topic challenge lease)) v =
      elim (Bool-cases (has_row d id topic && not (is_active d id))) [
        | inl e ↦
            let (row, idle) : (has_row d id topic ≡ true) × (is_active d id ≡ false) =
              ground arith in
            elim (Bool-cases (can_leave b id d (old_of id d))) [
              | inl c ↦
                  let (rs, run, _, v', _, _, _) =
                    verify_intent_accepts b callback id topic d v row idle margin now lease
                      challenge c in
                  inl (_, run, v', inl refl)
              | inr c ↦ inr (
                c,
                verify_intent_crash b callback id topic d v row idle margin now lease challenge c,
                without_old-IsValid b callback id topic d v row idle (old_of id d),
              )
            ]
        | inr e ↦ inl (answered status_not_found d, rw e, v, inr (refl, refl, refl, refl))
      ]
  verify_intent-IsValid (some (Verify.unsubscribes topic challenge)) v =
      elim (Bool-cases (not (has_row d id topic))) [
        | inl e ↦ inl (answered (record { status = 200; body = challenge }) d, rw e, v, inl refl)
        | inr e ↦ inl (answered status_not_found d, rw e, v, inr (refl, refl, refl, refl))
      ]
