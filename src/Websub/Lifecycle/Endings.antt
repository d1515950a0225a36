-- ===== src/Websub/Lifecycle/Endings.antt =====
-- What the operations that remove subscriptions, and the verification of intents, do to the tables.
use pipitor.Base.{
  ℕ, String, ==_iff, Bool, true, false, not, ◌&&◌, List, [], ◌∷◌, ◌++◌, ◌==◌, Option, none, some,
  ◌≡◌, ◌⊎◌, refl, sym, ◌∙◌, subst, arith, All-map, All-retain, Bool-cases, inl, inr,
  has-retain-false, ==_refl,
}
use pipitor.Base.Int.{ℤ, pos}
use mathlib.Core.List.Memᴰ
use pipitor.Websub.Callback.{Library}
use pipitor.Websub.Address.{Uri}
use pipitor.Websub.Store.{
  Db, Subscription, Renewing, has_sub, is_active, delete_subscriptions, delete_pending, IsValid,
}
use pipitor.Websub.Store.Integrity.{
  activated, is_active-delete_subscriptions, delete_subscriptions-IsValid,
}
use pipitor.Websub.Hub.{Request, done}
use pipitor.Websub.Service.{
  Verify, Verified, has_row, verify_intent, expiry, answered, status_not_found,
}
use pipitor.Websub.Service.Intent.{
  has_row-has_sub, old_of, without_old, has_sub-delete, can_leave, accepted, verify_intent_accepts,
  verify_intent_crash,
}
use pipitor.Websub.Lifecycle.{IsAsked, note}
use pipitor.Websub.Lifecycle.Effects.{done-injective}

-- What a verification may take the row of: the old subscription of a renewal.
abbrev pub IsOldOf : ℕ → ℕ → Db → Type 0
IsOldOf id i d = (r : Renewing) × (old_of id d ≡ some r) × (r.old ≡ i)

-- The rows are those of before but for the old subscription of a renewal.
abbrev pub Leaves : ℕ → Db → Db → Type 0
Leaves id d d' = (i : ℕ) → ((has_sub d' i ≡ has_sub d i) ⊎ IsOldOf id i d)

pub without_old-Leaves :
    (o : Option Renewing) (id : ℕ) (d : Db) → old_of id d ≡ o → Leaves id d (without_old o d)
without_old-Leaves none id d e i = inl refl
without_old-Leaves (some r) id d e i = elim (Bool-cases (i == r.old)) [
  | inl same ↦ inr (r, e, sym ((==_iff i r.old).0 same))
  | inr other ↦ inl (ground (arith, has_sub-delete r.old d i))
]

-- The request is to subscribe, under the topic of the row.
abbrev pub IsFor : ℕ → Db → Option Verify → Type 0
IsFor id d q =
    (topic : String) × (challenge : String) × (lease : ℕ) × (q
      ≡ some (Verify.subscribes topic challenge lease))
    × (has_row d id topic ≡ true)

module _ (b : Library) (callback : Uri) where
  -- An operation that removes subscriptions: no row comes, the active rows are those whose
  -- subscription is left, and each row was asked for.
  pub record Forgets (sent : List Request) (d d' : Db) : Type 0 where
    pub valid : IsValid d'
    pub active_left : (i : ℕ) → is_active d' i ≡ (has_sub d' i && is_active d i)
    pub comes_not : (i : ℕ) → has_sub d i ≡ false → has_sub d' i ≡ false
    pub asked : IsAsked b callback sent d'

  active_sub : (d : Db) (i : ℕ) → IsValid d → is_active d i ≡ (has_sub d i && is_active d i)
  active_sub d i v = ground (arith, v.covered i)

  pub same-Forgets :
      (sent : List Request) (d : Db) → IsValid d → IsAsked b callback sent d → Forgets sent d d
  same-Forgets sent d v a = record {
    valid = v;
    active_left = λ i. active_sub d i v;
    comes_not = λ i h. h;
    asked = a;
  }

  delete_subscriptions-Forgets :
      (p : Subscription → Bool) (sent : List Request) (d : Db)
      → IsValid d
      → IsAsked b callback sent d
      → Forgets sent d (delete_subscriptions p d)
  unfolding delete_subscriptions
  delete_subscriptions-Forgets p sent d v a = record {
    valid = delete_subscriptions-IsValid p d v;
    active_left = λ i. is_active-delete_subscriptions p d i;
    comes_not = λ i h. has-retain-false (λ s. s.id) i _ d.subscriptions h;
    asked = All-retain _ _ d.subscriptions a;
  }

  pub without_old-Forgets :
      (o : Option Renewing) (sent : List Request) (d : Db)
      → IsValid d
      → IsAsked b callback sent d
      → Forgets sent d (without_old o d)
  without_old-Forgets none sent d v a = same-Forgets sent d v a
  without_old-Forgets (some r) sent d v a =
      delete_subscriptions-Forgets (λ s. s.id == r.old) sent d v a

  sends :
      (rs sent : List Request) (d : Db)
      → IsAsked b callback sent d
      → IsAsked b callback (rs ++ sent) d
  sends rs sent d = All-map (λ s m u. Memᴰ.append_right rs (m u)) d.subscriptions

  -- The removal of subscriptions, with requests that take leave of them.
  pub unsubscribes-Forgets :
      (p : Subscription → Bool) (rs sent : List Request) (d : Db) {d' : Db}
      → delete_subscriptions p d ≡ d'
      → IsValid d
      → IsAsked b callback sent d
      → Forgets (rs ++ sent) d d'
  unsubscribes-Forgets p rs sent d e v a =
      subst (Forgets (rs ++ sent) d) e
        (delete_subscriptions-Forgets p (rs ++ sent) d v (sends rs sent d a))

  -- A verification that is accepted: the subscription waited, and is active; of the others none
  -- becomes active and none comes.
  pub record Accepts (id : ℕ) (sent : List Request) (d d' : Db) : Type 0 where
    pub valid : IsValid d'
    pub was : (has_sub d id && not (is_active d id)) ≡ true
    pub is : is_active d' id ≡ true
    pub others : (i : ℕ) → (id == i) ≡ false → is_active d' i ≡ (has_sub d' i && is_active d i)
    pub comes_not : (i : ℕ) → has_sub d i ≡ false → has_sub d' i ≡ false
    pub leaves : Leaves id d d'
    pub asked : IsAsked b callback sent d'

  activated-Accepts :
      (id : ℕ) (e : ℤ) (sent : List Request) (d d1 : Db)
      → (has_sub d id && not (is_active d id)) ≡ true
      → Forgets sent d d1
      → Leaves id d d1
      → IsValid (activated id e d1)
      → Accepts id sent d (activated id e d1)
  unfolding delete_pending
  activated-Accepts id e sent d d1 was f l v = record {
    valid = v;
    was = was;
    is = ground (arith, ==_refl id);
    others = λ i h. ground (arith, f.active_left i);
    comes_not = f.comes_not;
    leaves = l;
    asked = f.asked;
  }

  abbrev pub Verifies : ℕ → Option Verify → List Request → Db → Verified → Type 0
  Verifies id q sent d w =
      (Accepts id (w.requests ++ sent) d w.db
        × ((ids : List ℕ) → note id q w ids ≡ id ∷ ids)
        × IsFor id d q)
      ⊎ (Forgets (w.requests ++ sent) d w.db
          × ((ids : List ℕ) → note id q w ids ≡ ids)
          × (w.db ≡ d))

  -- An answer that changes nothing.
  refused :
      (id : ℕ) (q : Option Verify) (sent : List Request) (d : Db) (w x : Verified)
      → IsValid d
      → IsAsked b callback sent d
      → x.db ≡ d
      → x.requests ≡ []
      → ((ids : List ℕ) → note id q x ids ≡ ids)
      → x ≡ w
      → Verifies id q sent d w
  refused id q sent d w x v a e r n same =
      subst (Verifies id q sent d) same (inr (rw (e, r) (same-Forgets sent d v a), n, e))

  -- A verification is accepted and noted, or nothing is.
  pub verify_intent-Verifies :
      (margin now id : ℕ) (q : Option Verify) (sent : List Request) (d : Db) (w : Verified)
      → IsValid d
      → IsAsked b callback sent d
      → verify_intent b callback margin now id q d ≡ done w
      → Verifies id q sent d w
  unfolding verify_intent
  verify_intent-Verifies margin now id none sent d w v a h =
      refused id none sent d w (answered status_not_found d) v a refl refl (λ ids. refl)
        (done-injective h)
  verify_intent-Verifies margin now id (some (Verify.subscribes topic challenge lease)) sent d w v a
        h =
      elim (Bool-cases (has_row d id topic && not (is_active d id))) [
        | inl e ↦
            let (row, idle) : (has_row d id topic ≡ true) × (is_active d id ≡ false) =
              ground arith in
            elim (Bool-cases (can_leave b id d (old_of id d))) [
              | inr c ↦ absurd (
                  cc (
                    sym (
                      verify_intent_crash b callback id topic d v row idle margin now lease
                        challenge c)
                    ∙ h))
              | inl c ↦
                  let (rs, run, _, v', _, _, _) =
                    verify_intent_accepts b callback id topic d v row idle margin now lease
                      challenge c in
                  let q : Option Verify = some (Verify.subscribes topic challenge lease) in
                  let x : Verified =
                    accepted b callback id topic d v row idle margin now lease challenge rs in
                  let same : x ≡ w = done-injective (sym run ∙ h) in
                  let was : (has_sub d id && not (is_active d id)) ≡ true =
                    ground (arith, has_row-has_sub id topic d.subscriptions row) in
                  let left =
                    without_old-Forgets (old_of id d) (rs ++ sent) d v (sends rs sent d a) in
                  subst (Verifies id q sent d) same (
                    inl (
                      activated-Accepts id (pos (expiry now lease)) (rs ++ sent) d
                          (without_old (old_of id d) d) was left
                          (without_old-Leaves (old_of id d) id d refl) v',
                      λ ids. refl,
                      (topic, challenge, lease, refl, row),
                    ))
            ]
        | inr e ↦
            refused id (some (Verify.subscribes topic challenge lease)) sent d w
              (answered status_not_found d) v a refl refl (λ ids. refl) (done-injective (rw e at h))
      ]
  verify_intent-Verifies margin now id (some (Verify.unsubscribes topic challenge)) sent d w v a h =
      elim (Bool-cases (not (has_row d id topic))) [
        | inl e ↦
            refused id (some (Verify.unsubscribes topic challenge)) sent d w
              (answered (record { status = 200; body = challenge }) d) v a refl refl (λ ids. refl)
              (done-injective (rw e at h))
        | inr e ↦
            refused id (some (Verify.unsubscribes topic challenge)) sent d w
              (answered status_not_found d) v a refl refl (λ ids. refl) (done-injective (rw e at h))
      ]
