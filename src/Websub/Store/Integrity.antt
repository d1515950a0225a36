-- ===== src/Websub/Store/Integrity.antt =====
-- The integrity of the `websub_*` tables under the statements of the subscriber.
use pipitor.Base.{
  ℕ, Bool, true, false, not, ◌&&◌, ◌||◌, List, [], ◌∷◌, ◌==◌, has, All, ◌≡◌, arith, has-retain,
  has-retain-false, retain-Unique, retain-All, All-map, refl, ==_refl,
}
use pipitor.Base.Int.{ℤ}
use pipitor.Websub.Store.{
  Db, Subscription, Renewing, has_sub, is_active, is_pending, is_renewed, ok, delete_subscriptions,
  delete_pending, insert_pending, insert_active, insert_renewing, IsValid,
}

module _ (p : Subscription → Bool) (d : Db) where
  pub is_active-delete_subscriptions :
      (i : ℕ)
      → is_active (delete_subscriptions p d) i
        ≡ (has_sub (delete_subscriptions p d) i && is_active d i)
  unfolding delete_subscriptions
  is_active-delete_subscriptions i = has-retain (λ a. a.id) i _ d.active

  pub is_pending-delete_subscriptions :
      (i : ℕ)
      → is_pending (delete_subscriptions p d) i
        ≡ (has_sub (delete_subscriptions p d) i && is_pending d i)
  unfolding delete_subscriptions
  is_pending-delete_subscriptions i = has-retain (λ q. q) i _ d.pending

  has_sub-delete_none : (i : ℕ) → has_sub d i ≡ false → has_sub (delete_subscriptions p d) i ≡ false
  unfolding delete_subscriptions
  has_sub-delete_none i h = has-retain-false (λ s. s.id) i _ d.subscriptions h

  delete_subscriptions-covered :
      IsValid d
      → (i : ℕ)
      → has_sub (delete_subscriptions p d) i
        ≡ (is_active (delete_subscriptions p d) i || is_pending (delete_subscriptions p d) i)
  delete_subscriptions-covered v i =
      rw (is_active-delete_subscriptions i, is_pending-delete_subscriptions i)
        (ground (arith, v.covered i, has_sub-delete_none i))

  delete_subscriptions-disjoint :
      IsValid d
      → (i : ℕ)
      → (is_active (delete_subscriptions p d) i && is_pending (delete_subscriptions p d) i) ≡ false
  delete_subscriptions-disjoint v i =
      rw (is_active-delete_subscriptions i, is_pending-delete_subscriptions i)
        (ground (arith, v.disjoint i))

  -- Deleting any set of subscriptions keeps the tables valid.
  pub delete_subscriptions-IsValid : IsValid d → IsValid (delete_subscriptions p d)
  unfolding delete_subscriptions
  delete_subscriptions-IsValid v = record {
    subs_unique = retain-Unique _ _ _ v.subs_unique;
    active_unique = retain-Unique _ _ _ v.active_unique;
    pending_unique = retain-Unique _ _ _ v.pending_unique;
    old_unique = retain-Unique _ _ _ v.old_unique;
    new_unique = retain-Unique _ _ _ v.new_unique;
    covered = delete_subscriptions-covered v;
    disjoint = delete_subscriptions-disjoint v;
    linked = retain-All _ d.renewing;
  }

-- A new subscription under a fresh id, pending.
module _ (s : Subscription) (d : Db) where
  abbrev pub with_pending : Db
  with_pending = record d { subscriptions = s ∷ d.subscriptions; pending = s.id ∷ d.pending }

  pub insert_pending-ok :
      IsValid d
      → has_sub d s.id ≡ false
      → insert_pending s.id (record d { subscriptions = s ∷ d.subscriptions }) ≡ ok with_pending
  unfolding insert_pending
  insert_pending-ok v fresh = ground (arith, v.covered s.id, ==_refl s.id)

  pub with_pending-IsValid : IsValid d → has_sub d s.id ≡ false → IsValid with_pending
  with_pending-IsValid v fresh = record {
    subs_unique = (fresh, v.subs_unique);
    active_unique = v.active_unique;
    pending_unique = (ground (arith, v.covered s.id), v.pending_unique);
    old_unique = v.old_unique;
    new_unique = v.new_unique;
    covered = λ i. ground (arith, v.covered i);
    disjoint = λ i. ground (arith, v.covered i, v.disjoint i, v.covered s.id);
    linked = All-map (λ r h. ground arith) d.renewing v.linked;
  }

-- A pending subscription becomes active.
module _ (i : ℕ) (e : ℤ) (d : Db) where
  is_pending-delete_pending :
      (j : ℕ) → is_pending (delete_pending i d) j ≡ (not (j == i) && is_pending d j)
  unfolding delete_pending
  is_pending-delete_pending j = has-retain (λ q. q) j (λ q. not (q == i)) d.pending

  abbrev pub activated : Db
  activated = record (delete_pending i d) { active = record { id = i; expires_at = e } ∷ d.active }

  pub insert_active-delete_pending :
      IsValid d
      → is_pending d i ≡ true
      → insert_active (record { id = i; expires_at = e }) (delete_pending i d) ≡ ok activated
  unfolding insert_active delete_pending
  insert_active-delete_pending v h = ground (arith, v.covered i, v.disjoint i)

  pub activated-IsValid : IsValid d → is_pending d i ≡ true → IsValid activated
  unfolding delete_pending
  activated-IsValid v h = record {
    subs_unique = v.subs_unique;
    active_unique = (ground (arith, v.disjoint i), v.active_unique);
    pending_unique = retain-Unique _ _ _ v.pending_unique;
    old_unique = retain-Unique _ _ _ v.old_unique;
    new_unique = retain-Unique _ _ _ v.new_unique;
    covered =
        λ j. ground (arith, v.covered j, is_pending-delete_pending j, v.covered i, v.disjoint i);
    disjoint = λ j. ground (arith, v.disjoint j, is_pending-delete_pending j);
    linked = All-map (λ r q. ground arith) _ (retain-All _ d.renewing);
  }

-- An id that is not pending renews nothing.
not-new_of_not-pending :
    (n : ℕ) (d : Db) (rs : List Renewing)
    → All (λ r. (is_active d r.old && is_pending d r.new) ≡ true) rs
    → is_pending d n ≡ false
    → has (λ r. r.new) n rs ≡ false
not-new_of_not-pending n d [] l h = refl
not-new_of_not-pending n d (r ∷ rs) l h = ground (arith, not-new_of_not-pending n d rs l.1 h, l.0)

-- A fresh id renews nothing yet.
pub not-new_of_fresh :
    (n : ℕ) (d : Db) → IsValid d → has_sub d n ≡ false → has (λ r. r.new) n d.renewing ≡ false
not-new_of_fresh n d v h =
    not-new_of_not-pending n d d.renewing v.linked (ground (arith, v.covered n))

module _ (r : Renewing) (d : Db) where
  abbrev pub with_renewing : Db
  with_renewing = record d { renewing = r ∷ d.renewing }

  pub insert_renewing-ok :
      is_active d r.old ≡ true
      → is_pending d r.new ≡ true
      → is_renewed d r.old ≡ false
      → has (λ q. q.new) r.new d.renewing ≡ false
      → insert_renewing r d ≡ ok with_renewing
  unfolding insert_renewing
  insert_renewing-ok a p o n = ground arith

  pub with_renewing-IsValid :
      IsValid d
      → is_active d r.old ≡ true
      → is_pending d r.new ≡ true
      → is_renewed d r.old ≡ false
      → has (λ q. q.new) r.new d.renewing ≡ false
      → IsValid with_renewing
  with_renewing-IsValid v a p o n = record {
    subs_unique = v.subs_unique;
    active_unique = v.active_unique;
    pending_unique = v.pending_unique;
    old_unique = (o, v.old_unique);
    new_unique = (n, v.new_unique);
    covered = v.covered;
    disjoint = v.disjoint;
    linked = (ground arith, v.linked);
  }
