-- ===== src/Websub/Hub/Create.antt =====
-- What the operations of the hub do to valid tables: `create_subscription` and `renew`.
use pipitor.Base.{
  ℕ, ◌/◌, String, true, false, not, List, [], ◌∷◌, find, Option, none, some, ◌≡◌, refl, arith,
  ==_refl, Bool-cases, inl, inr, ap, Option-cases,
}
use pipitor.Websub.Callback.{Library}
use pipitor.Websub.Address.{Uri, make_callback}
use pipitor.Websub.Store.{
  Db, Subscription, Renewing, Result, ok, err, has_sub, is_active, is_pending, is_renewed,
  insert_subscription, insert_pending, insert_renewing, IsValid,
}
use pipitor.Websub.Store
use pipitor.Websub.Store.Integrity.{
  with_pending, insert_pending-ok, with_pending-IsValid, with_renewing, insert_renewing-ok,
  with_renewing-IsValid, not-new_of_fresh,
}
use pipitor.Websub.Hub.{
  Form, Request, Rng, Outcome, done, starved, insert_drawn, gen_secret, new_row,
  create_subscription, renew, send_request,
}

-- The first draw whose id is not taken.
abbrev pub fresh_draw : List ℕ → Db → Option ℕ
fresh_draw xs d = find (λ x. not (has_sub d (x / 2))) xs

pub fresh_draw-not-taken :
    (xs : List ℕ) (d : Db) {x : ℕ} → fresh_draw xs d ≡ some x → has_sub d (x / 2) ≡ false
fresh_draw-not-taken [] d h = ground arith
fresh_draw-not-taken (y ∷ xs) d {x} h = ground (arith, fresh_draw-not-taken xs d {x = x})

insert_subscription_taken :
    (s : Subscription) (d : Db)
    → has_sub d s.id ≡ true
    → insert_subscription s d ≡ err Store.unique_violation
unfolding insert_subscription
insert_subscription_taken s d h = rw h

insert_subscription_free :
    (s : Subscription) (d : Db)
    → has_sub d s.id ≡ false
    → insert_subscription s d ≡ ok (record d { subscriptions = s ∷ d.subscriptions })
unfolding insert_subscription
insert_subscription_free s d h = rw h

module _ (b : Library) (hub topic : String) (rng : Rng) (d : Db) where
  row : ℕ → Subscription
  row = new_row b hub topic rng

  insert_drawn_lem :
      (xs : List ℕ) (x : ℕ)
      → fresh_draw xs d ≡ some x
      → insert_drawn row xs d
        ≡ done (x / 2, record d { subscriptions = row (x / 2) ∷ d.subscriptions })
  unfolding insert_drawn row
  insert_drawn_lem [] x h = ground arith
  insert_drawn_lem (y ∷ xs) x h = elim (Bool-cases (has_sub d (y / 2))) [
    | inl e ↦
        rw (insert_subscription_taken (row (y / 2)) d e, insert_drawn)
          (insert_drawn_lem xs x (ground arith))
    | inr e ↦
        let same : y ≡ x = ground arith in
        rw (insert_subscription_free (row (y / 2)) d e, insert_drawn)
          (ap (λ z. done (z / 2, record d { subscriptions = row (z / 2) ∷ d.subscriptions })) same)
  ]

  insert_drawn_starved : (xs : List ℕ) → fresh_draw xs d ≡ none → insert_drawn row xs d ≡ starved
  unfolding insert_drawn row
  insert_drawn_starved [] h = refl
  insert_drawn_starved (y ∷ xs) h = elim (Bool-cases (has_sub d (y / 2))) [
    | inl e ↦
        rw (insert_subscription_taken (row (y / 2)) d e, insert_drawn)
          (insert_drawn_starved xs (ground arith))
    | inr e ↦ ground arith
  ]

  -- The outcome of `create_subscription`, by the first draw that is not taken.
  abbrev pub created : Option ℕ → Outcome (ℕ × List ℕ × Db)
  created none = starved
  created (some x) =
      done (x / 2, gen_secret b rng, with_pending (new_row b hub topic rng (x / 2)) d)

  pub create_subscription_lem :
      IsValid d → create_subscription b hub topic rng d ≡ created (fresh_draw rng.u64s d)
  unfolding create_subscription row
  create_subscription_lem v = elim (Option-cases (fresh_draw rng.u64s d)) [
    | inl e ↦ rw (e, insert_drawn_starved rng.u64s e)
    | inr (x, e) ↦
        let free : has_sub d (x / 2) ≡ false = fresh_draw-not-taken rng.u64s d e in
        rw (
          e,
          insert_drawn_lem rng.u64s x e,
          insert_pending-ok (new_row b hub topic rng (x / 2)) d v free,
        )
  ]

-- The tables after the renewal of `old` by `new`.
abbrev pub renewed : Library → String → String → Rng → ℕ → ℕ → Db → Db
renewed b hub topic rng old new d =
    with_renewing (record { old = old; new = new }) (with_pending (new_row b hub topic rng new) d)

module _ (b : Library) (callback : Uri) (old : ℕ) (hub topic : String) (rng : Rng) (d : Db) where
  -- The request that a renewal sends.
  abbrev pub renewal : ℕ → Request
  renewal new = record {
    hub = hub;
    form = Form.subscribes (make_callback b callback new) topic (gen_secret b rng);
  }

  module _ (v : IsValid d) (a : is_active d old ≡ true) (o : is_renewed d old ≡ false) {x : ℕ}
      (e : fresh_draw rng.u64s d ≡ some x) where
    free : has_sub d (x / 2) ≡ false
    free = fresh_draw-not-taken rng.u64s d e

    -- A renewal of an active subscription that is not being renewed comes to its request.
    pub renew_lem :
        renew b callback old hub topic rng d
        ≡ send_request b hub (renewal (x / 2)).form (renewed b hub topic rng old (x / 2) d)
    unfolding renew
    renew_lem = rw (
      create_subscription_lem b hub topic rng d v,
      e,
      insert_renewing-ok (record { old = old; new = x / 2 })
          (with_pending (new_row b hub topic rng (x / 2)) d) a (ground (arith, ==_refl (x / 2))) o
          (not-new_of_fresh (x / 2) d v free),
    )

    pub renewed-IsValid : IsValid (renewed b hub topic rng old (x / 2) d)
    renewed-IsValid =
        with_renewing-IsValid _ _ (with_pending-IsValid _ d v free) a
          (ground (arith, ==_refl (x / 2))) o (not-new_of_fresh (x / 2) d v free)
