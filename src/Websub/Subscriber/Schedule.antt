-- ===== src/Websub/Subscriber/Schedule.antt =====
-- A run of the scheduler's function asks for its next run at a later time.
use pipitor.Base.{
  ℕ, ◌+◌, ◌-◌, ◌^◌, ◌<◌, Bool, true, false, not, ◌&&◌, List, [], ◌∷◌, ◌==◌, any, has, retain, All,
  Option, none, some, ◌≡◌, refl, subst, arith, ==_refl, Option-cases, ◌⊎◌, inl, inr,
}
use pipitor.Base.Int.{ℤ, pos, negsuc, int_leb, int_min}
use pipitor.Websub.Callback.{Library}
use pipitor.Websub.Address.{Uri}
use pipitor.Websub.Store.{Db, Subscription, Active, is_renewed, IsValid}
use pipitor.Websub.Hub.{Rng, done}
use pipitor.Websub.Service.{expires_by, expiring, refresh_time}
use pipitor.Websub.Service.Renewal.{expires_by-active, Drawn, renew_subscriptions_lem}
use pipitor.Websub.Subscriber.{min_with, first_expiry, tick_of_row, next_tick, Ran, run_scheduled}

-- Later than `t`, and an `i64`.
abbrev pub IsLater : ℕ → ℤ → Type 0
IsLater t e = (int_leb e (pos t) ≡ false) × (int_leb e (pos (2 ^ 63 - 1)) ≡ true)

int_min-IsLater : (t : ℕ) (a b : ℤ) → IsLater t a → IsLater t b → IsLater t (int_min a b)
int_min-IsLater t a b h k = ground arith

min_with-IsLater :
    (t : ℕ) (a : ℤ) (o : Option ℤ)
    → IsLater t a
    → ((m : ℤ) → o ≡ some m → IsLater t m)
    → IsLater t (min_with a o)
unfolding min_with
min_with-IsLater t a none h k = h
min_with-IsLater t a (some m) h k = int_min-IsLater t a m h (k m refl)

first_expiry-IsLater :
    (t : ℕ) (rows : List Active)
    → All (λ a. IsLater t a.expires_at) rows
    → (e : ℤ) → first_expiry rows ≡ some e
    → IsLater t e
unfolding first_expiry
first_expiry-IsLater t [] h e f = ground arith
first_expiry-IsLater t (a ∷ rows) h e f =
    let same : min_with a.expires_at (first_expiry rows) ≡ e = cc in
    subst (IsLater t) same
      (min_with-IsLater t a.expires_at (first_expiry rows) h.0 (first_expiry-IsLater t rows h.1))

retain-eq-nil :
    (p : ℕ → Bool) (i : ℕ) (rs : List Subscription)
    → retain (λ s. p s.id) rs ≡ []
    → has (λ s. s.id) i rs ≡ true
    → p i ≡ false
retain-eq-nil p i [] e h = ground arith
retain-eq-nil p i (s ∷ rs) e h = ground (arith, retain-eq-nil p i rs)

-- A row among the active ones by its key is among those that `expires_by` reads.
IsLater-rows :
    (t : ℕ) (p : ℕ → Bool) (d : Db) (rows : List Active)
    → ((i : ℕ) → any (λ a. a.id == i && int_leb a.expires_at (pos t)) rows ≡ true → p i ≡ false)
    → All (λ a. int_leb a.expires_at (pos (2 ^ 63 - 1)) ≡ true) rows
    → All (λ a. IsLater t a.expires_at) (retain (λ a. p a.id) rows)
IsLater-rows t p d [] h k = tt
IsLater-rows t p d (a ∷ rows) h k =
    let tail = IsLater-rows t p d rows (λ i q. h i (ground arith)) k.1 in
    ground (arith, h a.id, tail, ==_refl a.id)

module _ (t : ℕ) (d : Db) (v : IsValid d) (none_left : expiring t d ≡ []) where
  due-renewed : (i : ℕ) → expires_by t d i ≡ true → not (is_renewed d i) ≡ false
  unfolding expiring
  due-renewed i h =
      let covered = v.covered i in
      let active = expires_by-active t i d.active h in
      let skipped =
        retain-eq-nil (λ j. expires_by t d j && not (is_renewed d j)) i d.subscriptions none_left
          (ground arith) in
      ground arith

tick_of_row-IsLater :
    (margin now : ℕ) (o : Option ℤ) (tick : ℕ)
    → ((e : ℤ) → o ≡ some e → IsLater (now + margin + 1) e)
    → tick_of_row margin o ≡ some tick
    → now + 1 < tick
unfolding tick_of_row refresh_time
tick_of_row-IsLater margin now none tick h e = ground arith
tick_of_row-IsLater margin now (some (pos k)) tick h e = ground (arith, h (pos k) refl)
tick_of_row-IsLater margin now (some (negsuc k)) tick h e = ground (arith, h (negsuc k) refl)

module _ (b : Library) (callback : Uri) (rng : ℕ → Rng) where
  -- A run of the scheduler's function, given the draws of its renewals, ends if the hubs of the
  -- subscriptions to renew are URIs, and the tick that it
  -- asks for, if any, is later than the next second, if all expiry times are `i64`s.
  pub run_scheduled-later :
      (margin now : ℕ) (d : Db)
      → IsValid d
      → now + margin + 1 < 2 ^ 63
      → All (λ a. int_leb a.expires_at (pos (2 ^ 63 - 1)) ≡ true) d.active
      → All (λ s. b.is_uri s.hub ≡ true) (expiring (now + margin + 1) d)
      → Drawn b callback rng (expiring (now + margin + 1) d) d
      → (r : Ran) × (run_scheduled b callback margin now rng d ≡ done r)
        × IsValid r.db
        × ((r.tick ≡ none) ⊎ ((tick : ℕ) × (r.tick ≡ some tick) × (now + 1 < tick)))
  unfolding run_scheduled next_tick
  run_scheduled-later margin now d v small range uris w =
      let (rs, d', run, v', none_left, same, sent) =
        renew_subscriptions_lem b callback rng margin now d v small uris w in
      let t : ℕ = now + margin + 1 in
      let later : All (λ a. IsLater t a.expires_at)
          (retain (λ a. not (is_renewed d' a.id)) d'.active) =
        IsLater-rows t (λ i. not (is_renewed d' i)) d' d'.active (due-renewed t d' v' none_left)
          (rw same range) in
      (
        record { requests = rs; tick = next_tick margin d'; db = d' },
        rw run,
        v',
        elim (Option-cases (next_tick margin d')) [
          | inl e ↦ inl e
          | inr (tick, e) ↦
              inr
                (tick, e, tick_of_row-IsLater margin now _ tick (first_expiry-IsLater t _ later) e)
        ],
      )
