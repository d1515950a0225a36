-- ===== src/Websub/Service/Renewal.antt =====
-- What a pass of `renew_subscriptions` achieves.
use pipitor.Base.{
  ℕ, ◌+◌, ◌/◌, ◌%◌, ◌^◌, ◌<◌, Bool, true, false, not, ◌&&◌, ◌||◌, List, [], ◌∷◌, ◌==◌, any, retain,
  has, Unique, All, some, ◌≡◌, refl, sym, ap, subst, ◌∙◌, arith, retain-Unique, retain-All, ==_refl,
  lt→ltb,
}
use pipitor.Base.Int.{int_leb, pos}
use pipitor.Websub.Callback.{Library}
use pipitor.Websub.Address.{Uri}
use pipitor.Websub.Store.{Db, Subscription, Active, is_active, is_renewed, IsValid}
use pipitor.Websub.Hub.{Request, Form, Rng, done}
use pipitor.Websub.Hub.Create.{
  fresh_draw, fresh_draw-not-taken, renewed, renewal, renew_lem, renewed-IsValid,
}
use pipitor.Websub.Service.{expires_by, expiring, renew_all, renew_subscriptions}

retain-retain {ℓ} :
    {A : Type ℓ} (p q : A → Bool) (xs : List A)
    → retain p (retain q xs) ≡ retain (λ x. q x && p x) xs
retain-retain p q [] = refl
retain-retain p q (x ∷ xs) = ground (arith, retain-retain p q xs)

-- Taking out an id that is not there changes nothing.
retain_absent :
    (i : ℕ) (rs : List Subscription)
    → has (λ s. s.id) i rs ≡ false
    → retain (λ s. not (i == s.id)) rs ≡ rs
retain_absent i [] h = refl
retain_absent i (r ∷ rs) h = ground (arith, retain_absent i rs)

pub expires_by-active :
    (t n : ℕ) (acts : List Active)
    → any (λ a. a.id == n && int_leb a.expires_at (pos t)) acts ≡ true
    → has (λ a. a.id) n acts ≡ true
expires_by-active t n [] h = h
expires_by-active t n (a ∷ acts) h = ground (arith, expires_by-active t n acts)

retain-shuffle :
    (p r : Subscription → Bool) (i : ℕ) (rs : List Subscription)
    → retain (λ s. p s && not (i == s.id || r s)) rs
      ≡ retain (λ s. (p s && not (r s)) && not (i == s.id)) rs
retain-shuffle p r i [] = refl
retain-shuffle p r i (s ∷ rs) = ground (arith, retain-shuffle p r i rs)

module _ (t : ℕ) (d : Db) (s : Subscription) (rows : List Subscription) (v : IsValid d)
    (e : expiring t d ≡ s ∷ rows) where
  due : (expires_by t d s.id && not (is_renewed d s.id)) ≡ true
  unfolding expiring
  due =
      (subst (All (λ q. (expires_by t d q.id && not (is_renewed d q.id)) ≡ true)) e
        (retain-All _ d.subscriptions)).0

  pub due-active : is_active d s.id ≡ true
  due-active = expires_by-active t s.id d.active (ground (arith, due))

  pub due-not-renewed : is_renewed d s.id ≡ false
  due-not-renewed = ground (arith, due)

  rows_without : has (λ q. q.id) s.id rows ≡ false
  unfolding expiring
  rows_without = (subst (Unique (λ q. q.id)) e (retain-Unique _ _ d.subscriptions v.subs_unique)).0

  -- After the renewal of the first row the others are what is left.
  pub expiring-renewed :
      (b : Library) (rng : Rng) (n : ℕ)
      → is_active d n ≡ false
      → expiring t (renewed b s.hub s.topic rng s.id n d) ≡ rows
  unfolding expiring
  expiring-renewed b rng n idle =
      let not_due : expires_by t d n ≡ false = ground (arith, expires_by-active t n d.active) in
      let old_rows =
        retain-retain (λ q. not (s.id == q.id))
          (λ q. expires_by t d q.id && not (is_renewed d q.id)) d.subscriptions
        ∙ sym (
            retain-shuffle (λ q. expires_by t d q.id) (λ q. is_renewed d q.id) s.id
              d.subscriptions) in
      sym (old_rows ∙ rw not_due)
      ∙ ap (retain (λ q. not (s.id == q.id))) e
      ∙ ground (arith, retain_absent s.id rows rows_without, ==_refl s.id)

module _ (b : Library) (callback : Uri) (rng : ℕ → Rng) where
  -- The draws for each row have an id that is not taken when its turn comes.
  abbrev pub Drawn : List Subscription → Db → Type 0
  Drawn [] d = Unit {0}
  Drawn (s ∷ rows) d =
      (x : ℕ) × (fresh_draw (rng s.id).u64s d ≡ some x)
      × Drawn rows (renewed b s.hub s.topic (rng s.id) s.id (x / 2) d)

  -- A row's request: to subscribe to its topic at its hub.
  abbrev pub Renews : List Subscription → List Request → Type 0
  Renews [] [] = Unit {0}
  Renews [] (r ∷ rs) = ⊥
  Renews (s ∷ rows) [] = ⊥
  Renews (s ∷ rows) (r ∷ rs) =
      (r.hub ≡ s.hub)
      × ((u : Uri) × (k : List ℕ) × (r.form ≡ Form.subscribes u s.topic k))
      × Renews rows rs

  renew_all_lem :
      (t : ℕ) (rows : List Subscription) (d : Db)
      → IsValid d
      → expiring t d ≡ rows
      → All (λ s. b.is_uri s.hub ≡ true) rows
      → Drawn rows d
      → (rs : List Request) × (d' : Db) × (renew_all b callback rng rows d ≡ done (rs, d'))
        × IsValid d'
        × (expiring t d' ≡ [])
        × (d'.active ≡ d.active)
        × Renews rows rs
  unfolding renew_all
  renew_all_lem t [] d v e uris w = ([], d, refl, v, e, refl, tt)
  renew_all_lem t (s ∷ rows) d v e (uri, uris) (x, f, w) =
      let a = due-active t d s rows v e in
      let o = due-not-renewed t d s rows v e in
      let free = fresh_draw-not-taken (rng s.id).u64s d f in
      let idle : is_active d (x / 2) ≡ false = ground (arith, v.covered (x / 2)) in
      let (rs, d', run, v', none_left, same, sent) =
        renew_all_lem t rows (renewed b s.hub s.topic (rng s.id) s.id (x / 2) d)
          (renewed-IsValid b callback s.id s.hub s.topic (rng s.id) d v a o f)
          (expiring-renewed t d s rows v e b (rng s.id) (x / 2) idle) uris w in
      (
        renewal b callback s.id s.hub s.topic (rng s.id) d (x / 2) ∷ rs,
        d',
        rw (renew_lem b callback s.id s.hub s.topic (rng s.id) d v a o f, uri, run),
        v',
        none_left,
        same,
        (refl, (_, _, refl), sent),
      )

  -- A pass of renewals, given its draws, if the hubs of the subscriptions are URIs: it sends one request for each subscription that expires
  -- within the margin and is not being renewed, leaves none of these, and keeps the tables valid.
  pub renew_subscriptions_lem :
      (margin now : ℕ) (d : Db)
      → IsValid d
      → now + margin + 1 < 2 ^ 63
      → All (λ s. b.is_uri s.hub ≡ true) (expiring (now + margin + 1) d)
      → Drawn (expiring (now + margin + 1) d) d
      → (rs : List Request) × (d' : Db) × (renew_subscriptions b callback margin now rng d
          ≡ done (rs, d'))
        × IsValid d'
        × (expiring (now + margin + 1) d' ≡ [])
        × (d'.active ≡ d.active)
        × Renews (expiring (now + margin + 1) d) rs
  unfolding renew_subscriptions
  renew_subscriptions_lem margin now d v small uris w =
      let fits : (now + margin + 1) % 2 ^ 64 ≡ now + margin + 1 = omega arith in
      let (rs, d', run, v', none_left, same, sent) =
        renew_all_lem (now + margin + 1) (expiring (now + margin + 1) d) d v refl uris w in
      (rs, d', rw (fits, lt→ltb _ _ small) run, v', none_left, same, sent)
