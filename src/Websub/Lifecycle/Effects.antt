-- ===== src/Websub/Lifecycle/Effects.antt =====
-- What the operations that end do to the tables and to what was sent.
use pipitor.Base.{
  ℕ, ◌/◌, String, true, false, List, [], ◌∷◌, ◌++◌, none, some, ◌≡◌, refl, ap, Bool-cases, subst,
  arith, All-map, Option-cases, inl, inr,
}
use mathlib.Core.List.{Memᴰ}
use mathlib.Core.List.Memᴰ
use pipitor.Websub.Callback.{Library}
use pipitor.Websub.Address.{Uri}
use pipitor.Websub.Store.{Db, Subscription, has_sub, is_active, IsValid}
use pipitor.Websub.Store.Integrity.{with_pending, with_pending-IsValid}
use pipitor.Websub.Hub.{
  Request, Rng, Outcome, done, crashed, after, panic, starved, new_row, subscribe, renew,
}
use pipitor.Websub.Hub.Create.{
  fresh_draw, fresh_draw-not-taken, create_subscription_lem, renewed, renewal, renew_lem,
  renewed-IsValid,
}
use pipitor.Websub.Service.{expiring, renew_all}
use pipitor.Websub.Service.Renewal.{due-active, due-not-renewed, expiring-renewed}
use pipitor.Websub.Lifecycle.{left, one, many, asks, IsAsked}

pub some-injective : {A : Type 0} {x y : A} → some x ≡ some y → x ≡ y
some-injective h = cc h

-- What is left after some requests.
pub left-after :
    (first : List Request) (o : Outcome (List Request × Db)) {rs : List Request} {d : Db}
    → left many (after first o) ≡ some (rs, d)
    → (rest : List Request) × (left many o ≡ some (rest, d)) × ((first ++ rest) ≡ rs)
left-after first (done (rest, d)) h =
    let same : (first ++ rest, d) ≡ _ = some-injective h in
    (rest, ap (λ p. some (rest, p.1)) same, ap (λ p. p.0) same)
left-after first (crashed rest d) h =
    let same : (first ++ rest, d) ≡ _ = some-injective h in
    (rest, ap (λ p. some (rest, p.1)) same, ap (λ p. p.0) same)
left-after first panic h = absurd (cc h)
left-after first starved h = absurd (cc h)

pub done-injective : {A : Type 0} {x y : A} → done x ≡ done y → x ≡ y
done-injective h = cc h

mem-middle {ℓ} :
    {A : Type ℓ} {a y : A} (xs ys : List A) → Memᴰ a (xs ++ (y ∷ ys)) → Memᴰ a (y ∷ (xs ++ ys))
mem-middle xs ys m = elim (Memᴰ.append_cases xs m) [
  | inl left ↦ Memᴰ.tail (Memᴰ.append_left ys left)
  | inr (Memᴰ.head e) ↦ Memᴰ.head e
  | inr (Memᴰ.tail right) ↦ Memᴰ.tail (Memᴰ.append_right xs right)
]

module _ (b : Library) (callback : Uri) where
  -- An operation that asks for subscriptions: the active rows stay, no row goes, and each row was
  -- asked for.
  pub record Asks (sent : List Request) (d d' : Db) : Type 0 where
    pub valid : IsValid d'
    pub same_active : d'.active ≡ d.active
    pub keeps : (i : ℕ) → has_sub d i ≡ true → has_sub d' i ≡ true
    pub asked : IsAsked b callback sent d'

  more :
      (r : Request) (sent : List Request) (d : Db)
      → IsAsked b callback sent d
      → IsAsked b callback (r ∷ sent) d
  more r sent d = All-map (λ s m u. Memᴰ.tail (m u)) d.subscriptions

  pub subscribe-Asks :
      (hub topic : String) (rng : Rng) (d d' : Db) (rs sent : List Request)
      → IsValid d
      → IsAsked b callback sent d
      → left one (subscribe b callback hub topic rng d) ≡ some (rs, d')
      → Asks (rs ++ sent) d d'
  unfolding subscribe
  subscribe-Asks hub topic rng d d' rs sent v a h = elim (Option-cases (fresh_draw rng.u64s d)) [
    | inl e ↦ absurd (cc (rw (create_subscription_lem b hub topic rng d v, e) at h))
    | inr (x, e) ↦
        let s : Subscription = new_row b hub topic rng (x / 2) in
        let valid = with_pending-IsValid s d v (fresh_draw-not-taken rng.u64s d e) in
        elim (Bool-cases (b.is_uri hub)) [
          | inl good ↦
              let end : (asks b callback s ∷ [], with_pending s d) ≡ (rs, d') =
                some-injective (rw (create_subscription_lem b hub topic rng d v, e, good) at h) in
              subst (λ p. Asks (p.0 ++ sent) d p.1) end
                (record {
                  valid = valid;
                  same_active = refl;
                  keeps = λ i k. ground arith;
                  asked = (λ u. Memᴰ.head refl, more (asks b callback s) sent d a);
                })
          | inr bad ↦
              let end : ([], with_pending s d) ≡ (rs, d') =
                some-injective (rw (create_subscription_lem b hub topic rng d v, e, bad) at h) in
              subst (λ p. Asks (p.0 ++ sent) d p.1) end
                (record {
                  valid = valid;
                  same_active = refl;
                  keeps = λ i k. ground arith;
                  asked = (λ u. absurd (cc (bad, u)), a);
                })
        ]
  ]

  unfold_renew :
      (old : ℕ) (hub topic : String) (rng : Rng) (d : Db)
      → IsValid d
      → fresh_draw rng.u64s d ≡ none
      → renew b callback old hub topic rng d ≡ starved
  unfolding renew
  unfold_renew old hub topic rng d v e = rw (create_subscription_lem b hub topic rng d v, e) refl

  renewed-keeps :
      (s : Subscription) (rng : Rng) (n : ℕ) (d : Db) (i : ℕ)
      → has_sub d i ≡ true
      → has_sub (renewed b s.hub s.topic rng s.id n d) i ≡ true
  renewed-keeps s rng n d i h = ground arith

  pub renew_all-Asks :
      (rng : ℕ → Rng) (t : ℕ) (rows : List Subscription) (d d' : Db) (rs sent : List Request)
      → IsValid d
      → expiring t d ≡ rows
      → IsAsked b callback sent d
      → left many (renew_all b callback rng rows d) ≡ some (rs, d')
      → Asks (rs ++ sent) d d'
  unfolding renew_all
  renew_all-Asks rng t [] d d' rs sent v e a h =
      let end : ([], d) ≡ (rs, d') = some-injective h in
      subst (λ p. Asks (p.0 ++ sent) d p.1) end
        (record { valid = v; same_active = refl; keeps = λ i k. k; asked = a })
  renew_all-Asks rng t (s ∷ rows) d d' rs sent v e a h =
      elim (Option-cases (fresh_draw (rng s.id).u64s d)) [
        | inl f ↦ absurd (cc (rw (unfold_renew s.id s.hub s.topic (rng s.id) d v f) at h))
        | inr (x, f) ↦
            let act = due-active t d s rows v e in
            let old = due-not-renewed t d s rows v e in
            let free = fresh_draw-not-taken (rng s.id).u64s d f in
            let idle : is_active d (x / 2) ≡ false = ground (arith, v.covered (x / 2)) in
            let d1 : Db = renewed b s.hub s.topic (rng s.id) s.id (x / 2) d in
            let r1 : Request = renewal b callback s.id s.hub s.topic (rng s.id) d (x / 2) in
            let valid = renewed-IsValid b callback s.id s.hub s.topic (rng s.id) d v act old f in
            elim (Bool-cases (b.is_uri s.hub)) [
              | inl good ↦
                  let (tail, run, last) = left-after (r1 ∷ []) (renew_all b callback rng rows d1) (
                    rw (renew_lem b callback s.id s.hub s.topic (rng s.id) d v act old f, good) at
                      h) in
                  let rest =
                    renew_all-Asks rng t rows d1 d' tail (r1 ∷ sent) valid
                      (expiring-renewed t d s rows v e b (rng s.id) (x / 2) idle)
                      (λ u. Memᴰ.head refl, more r1 sent d a) run in
                  subst (λ (q : List Request). Asks (q ++ sent) d d') last
                    (record {
                      valid = rest.valid;
                      same_active = rest.same_active;
                      keeps = λ i k. rest.keeps i (renewed-keeps s (rng s.id) (x / 2) d i k);
                      asked =
                          All-map (λ q m u. mem-middle tail sent (m u)) d'.subscriptions rest.asked;
                    })
              | inr bad ↦
                  let end : ([], d1) ≡ (rs, d') = some-injective (
                    rw (renew_lem b callback s.id s.hub s.topic (rng s.id) d v act old f, bad) at
                      h) in
                  subst (λ p. Asks (p.0 ++ sent) d p.1) end
                    (record {
                      valid = valid;
                      same_active = refl;
                      keeps = λ i k. renewed-keeps s (rng s.id) (x / 2) d i k;
                      asked = (λ u. absurd (cc (bad, u)), a);
                    })
            ]
      ]
