-- ===== src/Websub/Store.antt =====
-- The four `websub_*` tables (migrations/*/up.sql, src/schema.rs) and the statements that the
-- subscriber runs on them. Foreign keys are on (`ConnectionCustomizer::on_acquire`), and
-- `ON DELETE CASCADE` removes the rows whose parent row is gone.
-- Subscription ids are numbers: `create_subscription` draws them below 2^63.
-- The unread column `created_at` of the pending subscriptions is left out.
pub mod Integrity
use pipitor.Base.{
  ℕ, String, Bool, true, false, not, ◌&&◌, ◌||◌, List, ◌∷◌, ◌==◌, if◌then◌else◌, retain, has,
  Unique, All, ◌≡◌,
}
use pipitor.Base.Int.{ℤ}

pub record Subscription : Type 0 where
  pub id : ℕ
  pub hub : String
  pub topic : String
  pub secret : List ℕ

pub record Active : Type 0 where
  pub id : ℕ
  pub expires_at : ℤ

pub record Renewing : Type 0 where
  pub old : ℕ
  pub new : ℕ

pub record Db : Type 0 where
  pub subscriptions : List Subscription
  pub active : List Active
  pub pending : List ℕ
  pub renewing : List Renewing

-- What a statement can end in: `UniqueViolation` and foreign key violations are the database's,
-- `not_found` is diesel's for a query that wants one row.
pub data DbError : Type 0 where
  unique_violation foreign_key_violation not_found : DbError

pub data Result {ℓ} (A : Type ℓ) : Type ℓ where
  ok : A → Result A
  err : DbError → Result A

-- A statement after another.
infixl 5 ◌>>=◌
abbrev pub ◌>>=◌ {ℓ κ} : {A : Type ℓ} {B : Type κ} → Result A → (A → Result B) → Result B
ok a >>= f = f a
err e >>= f = err e

abbrev pub has_sub : Db → ℕ → Bool
has_sub d i = has (λ s. s.id) i d.subscriptions

abbrev pub is_active : Db → ℕ → Bool
is_active d i = has (λ a. a.id) i d.active

abbrev pub is_pending : Db → ℕ → Bool
is_pending d i = has (λ p. p) i d.pending

-- `query::renewing_subs()` holds the id.
abbrev pub is_renewed : Db → ℕ → Bool
is_renewed d i = has (λ r. r.old) i d.renewing

unfoldable pub insert_subscription : Subscription → Db → Result Db
insert_subscription s d =
    if has_sub d s.id
    then err unique_violation
    else ok (record d { subscriptions = s ∷ d.subscriptions })

unfoldable pub insert_pending : ℕ → Db → Result Db
insert_pending i d =
    if is_pending d i
    then err unique_violation
    else if has_sub d i
    then ok (record d { pending = i ∷ d.pending })
    else err foreign_key_violation

unfoldable pub insert_active : Active → Db → Result Db
insert_active a d =
    if is_active d a.id
    then err unique_violation
    else if has_sub d a.id
    then ok (record d { active = a ∷ d.active })
    else err foreign_key_violation

unfoldable pub insert_renewing : Renewing → Db → Result Db
insert_renewing r d =
    if is_renewed d r.old || has (λ q. q.new) r.new d.renewing
    then err unique_violation
    else if is_active d r.old && is_pending d r.new
    then ok (record d { renewing = r ∷ d.renewing })
    else err foreign_key_violation

-- The renewals whose two parents are still there.
unfoldable pub cascade_renewing : Db → Db
cascade_renewing d = record d {
  renewing = retain (λ r. is_active d r.old && is_pending d r.new) d.renewing;
}

-- The rows of the three child tables whose parent is still there.
unfoldable pub cascade : Db → Db
unfolding cascade_renewing
cascade d = cascade_renewing (record d {
  active = retain (λ a. has_sub d a.id) d.active;
  pending = retain (λ p. has_sub d p) d.pending;
})

-- `DELETE FROM websub_subscriptions WHERE p`.
unfoldable pub delete_subscriptions : (Subscription → Bool) → Db → Db
unfolding cascade
delete_subscriptions p d =
    cascade (record d { subscriptions = retain (λ s. not (p s)) d.subscriptions })

-- `DELETE FROM websub_pending_subscriptions WHERE id = i`.
unfoldable pub delete_pending : ℕ → Db → Db
unfolding cascade_renewing
delete_pending i d = cascade_renewing (record d { pending = retain (λ p. not (p == i)) d.pending })

-- Keys are unique, children have their parents, and every subscription is either active or
-- pending, never both.
pub record IsValid (d : Db) : Type 0 where
  pub subs_unique : Unique (λ s. s.id) d.subscriptions
  pub active_unique : Unique (λ a. a.id) d.active
  pub pending_unique : Unique (λ p. p) d.pending
  pub old_unique : Unique (λ r. r.old) d.renewing
  pub new_unique : Unique (λ r. r.new) d.renewing
  pub covered : (i : ℕ) → has_sub d i ≡ (is_active d i || is_pending d i)
  pub disjoint : (i : ℕ) → (is_active d i && is_pending d i) ≡ false
  pub linked : All (λ r. (is_active d r.old && is_pending d r.new) ≡ true) d.renewing
