-- ===== src/App/Start/Cleaned.antt =====
-- src/websub/subscriber.rs at the start of the application: what the removal of the subscriptions that
-- were never verified, and the runs of the scheduler after it, leave of the tables.
use pipitor.Base.{
  ℕ, true, false, not, ◌&&◌, List, [], ◌∷◌, map, has-retain, some, ◌≡◌, refl, sym, ap, ◌∙◌, arith,
  All, All-map, has,
}
use mathlib.Core.List.{Memᴰ}
use pipitor.Websub.Callback.{Library}
use pipitor.Websub.Address.{Uri}
use pipitor.Websub.Store.{Db, Subscription, has_sub, is_active, delete_subscriptions, IsValid}
use pipitor.Websub.Store.Integrity.{is_active-delete_subscriptions, delete_subscriptions-IsValid}
use pipitor.Websub.Hub.{Request, Rng, Outcome, done, crashed, panic, starved, ◌>>=◌}
use pipitor.Websub.Service.{remove_dangling_subscriptions, renew_subscriptions}
use pipitor.Websub.Subscriber.{Ran, run_scheduled, next_tick}
use pipitor.Websub.Lifecycle.{asks, left, many}
use pipitor.Websub.Lifecycle.Sound.{renew_subscriptions-Asks}
use pipitor.App.Start.{Pass, run_passes}

-- The active rows are the same, and no row goes.
record IsKept (d d' : Db) : Type 0 where
  valid : IsValid d'
  same_active : d'.active ≡ d.active
  keeps : (i : ℕ) → has_sub d i ≡ true → has_sub d' i ≡ true

self-IsKept : (d : Db) → IsValid d → IsKept d d
self-IsKept d v = record { valid = v; same_active = refl; keeps = λ i h. h }

IsKept-trans : {d e f : Db} → IsKept d e → IsKept e f → IsKept d f
IsKept-trans g h = record {
  valid = h.valid;
  same_active = h.same_active ∙ g.same_active;
  keeps = λ i k. h.keeps i (g.keeps i k);
}

-- What one run leaves.
abbrev ran : Ran → List Request × Db
ran r = (r.requests, r.db)

left-ran :
    (margin : ℕ) (o : Outcome (List Request × Db))
    → left ran (o >>= λ (rs, d). done (record { requests = rs; tick = next_tick margin d; db = d }))
      ≡ left many o
left-ran margin (done p) = refl
left-ran margin (crashed rs d) = refl
left-ran margin panic = refl
left-ran margin starved = refl

-- After a run that ends, others go on from its tables.
continued-IsKept :
    (d : Db) (next : Db → Db)
    → ((e : Db) → IsValid e → IsKept e (next e))
    → (o : Outcome Ran) → IsValid d
    → ((rs : List Request) (e : Db) → left ran o ≡ some (rs, e) → IsKept d e)
    → IsKept d
        (elim o as (λ x. Db) [ done r ↦ next r.db | crashed rs d' ↦ d' | panic ↦ d | starved ↦ d ])
continued-IsKept d next later (done r) v h =
    let first = h r.requests r.db refl in IsKept-trans first (later r.db first.valid)
continued-IsKept d next later (crashed rs d') v h = h rs d' refl
continued-IsKept d next later panic v h = self-IsKept d v
continued-IsKept d next later starved v h = self-IsKept d v

module _ (b : Library) (callback : Uri) (margin : ℕ) where
  asks_each :
      (rows : List Subscription)
      → All
          (λ s. b.is_uri s.hub ≡ true → Memᴰ (asks b callback s) (map (asks b callback) rows))
          rows
  asks_each [] = tt
  asks_each (s ∷ rows) =
      (λ u. Memᴰ.head refl, All-map (λ q m u. Memᴰ.tail (m u)) rows (asks_each rows))

  run_scheduled-IsKept :
      (now : ℕ) (rng : ℕ → Rng) (d d' : Db) (rs : List Request)
      → IsValid d
      → left ran (run_scheduled b callback margin now rng d) ≡ some (rs, d')
      → IsKept d d'
  unfolding run_scheduled
  run_scheduled-IsKept now rng d d' rs v h =
      let g =
        renew_subscriptions-Asks b callback margin now rng d d' rs
          (map (asks b callback) d.subscriptions) v (asks_each d.subscriptions)
          (sym (left-ran margin (renew_subscriptions b callback margin now rng d)) ∙ h) in
      record { valid = g.valid; same_active = g.same_active; keeps = g.keeps }

  run_passes-IsKept :
      (passes : List Pass) (d : Db) → IsValid d → IsKept d (run_passes b callback margin passes d)
  unfolding run_passes
  run_passes-IsKept [] d v = self-IsKept d v
  run_passes-IsKept (p ∷ passes) d v =
      continued-IsKept d (run_passes b callback margin passes) (run_passes-IsKept passes)
        (run_scheduled b callback margin p.now p.rng d) v
        (λ rs e h. run_scheduled-IsKept p.now p.rng d e rs v h)

  cleaned-active :
      (d : Db) (i : ℕ) → IsValid d → is_active (remove_dangling_subscriptions d) i ≡ is_active d i
  unfolding remove_dangling_subscriptions delete_subscriptions
  cleaned-active d i v = ground (
    arith,
    is_active-delete_subscriptions (λ s. not (is_active d s.id)) d i,
    has-retain (λ s. s.id) i (λ n. not (not (is_active d n))) d.subscriptions,
    v.covered i,
  )

  cleaned-sub :
      (d : Db) (i : ℕ)
      → has_sub (remove_dangling_subscriptions d) i ≡ (is_active d i && has_sub d i)
  unfolding remove_dangling_subscriptions delete_subscriptions
  cleaned-sub d i =
      ground (arith, has-retain (λ s. s.id) i (λ n. not (not (is_active d n))) d.subscriptions)

  -- From valid tables, once the subscriptions that were never verified are removed and the scheduler has
  -- run any number of times, the tables are valid, the same subscriptions are active as before, each of
  -- these has its row, and each one that is not active is new: it had no row after the removal.
  pub run_passes-cleaned :
      (passes : List Pass) (d : Db) (i : ℕ)
      → IsValid d
      → let cleaned = remove_dangling_subscriptions d in
        let d' = run_passes b callback margin passes cleaned in
        IsValid d'
        × (is_active d' i ≡ is_active d i)
        × ((is_active d i && not (has_sub d' i)) ≡ false)
        × ((has_sub d' i && not (is_active d' i) && has_sub cleaned i) ≡ false)
  unfolding remove_dangling_subscriptions
  run_passes-cleaned passes d i v =
      let cleaned = remove_dangling_subscriptions d in
      let valid : IsValid cleaned =
        delete_subscriptions-IsValid (λ s. not (is_active d s.id)) d v in
      let g = run_passes-IsKept passes cleaned valid in
      let d' = run_passes b callback margin passes cleaned in
      let active : is_active d' i ≡ is_active d i =
        ap (has (λ a. a.id) i) g.same_active ∙ cleaned-active d i v in
      (
        g.valid,
        active,
        ground (arith, v.covered i, g.keeps i, cleaned-sub d i),
        ground (arith, active, cleaned-sub d i),
      )
