-- ===== src/Websub/Lifecycle/Phases.antt =====
-- The abstract view of a subscription: the phases of its life, and what each operation may do to them.
use pipitor.Base.{
  List, [], ℕ, str_eq, Bool, true, false, not, ◌&&◌, ◌==◌, ◌≡◌, refl, ap, subst, Bool-cases, inl,
  inr, has, ==_iff, String, Option, some, arith, ◌⊎◌,
}
use pipitor.Websub.Callback.{Library}
use pipitor.Websub.Address.{Uri}
use pipitor.Websub.Store.{Db, has_sub, is_active, IsValid}
use pipitor.Websub.Hub.{Request}
use pipitor.Websub.Service.{Verify, has_row, remove_dangling_subscriptions}
use pipitor.Websub.Lifecycle.{
  World, Step, subscribes, verifies, verification_crashes, renews, unsubscribes, leaves, restarts,
  Reach, IsSound,
}
use pipitor.Websub.Lifecycle.Effects.{Asks, subscribe-Asks}
use pipitor.Websub.Lifecycle.Crashes.{verify_intent-crash, left-unsubscribe, left-unsubscribe_all}
use pipitor.Websub.Lifecycle.Endings.{
  Forgets, Accepts, IsOldOf, IsFor, unsubscribes-Forgets, verify_intent-Verifies,
}
use pipitor.Websub.Lifecycle.Sound.{renew_subscriptions-Asks, Reach-IsSound}

pub data Phase : Type 0 where
  absent waiting active : Phase

abbrev phase_of : Bool → Bool → Phase
phase_of true s = active
phase_of false true = waiting
phase_of false false = absent

-- By the rows of an id.
abbrev pub phase : Db → ℕ → Phase
phase d i = phase_of (is_active d i) (has_sub d i)

-- What an operation does with subscriptions: it asks for some, it answers the verification of an
-- intent, or it removes some.
pub data Cause : Type 0 where
  asking removing : Cause
  verifying : ℕ → Option Verify → Cause

abbrev pub cause : {b : Library} {callback : Uri} {w u : World} → Step b callback w u → Cause
cause (subscribes hub topic rng rs d e) = asking
cause (verifies margin now id q v e) = verifying id q
cause (verification_crashes margin now id q rs d e) = verifying id q
cause (renews margin now rng rs d e) = asking
cause (unsubscribes id hub topic rs d e) = removing
cause (leaves topic rs d e) = removing
cause restarts = removing

-- What an operation may do to the subscription `i` of some tables: an absent one starts to wait if the
-- operation asks for subscriptions; one that waits becomes active if the operation answers an intent to
-- subscribe with its id and topic; and one goes if the operation removes subscriptions, or answers an
-- intent for the renewal of `i`.
pub data Edge (d : Db) (i : ℕ) : Cause → Phase → Phase → Type 0 where
  stay : {c : Cause} {p : Phase} → Edge d i c p p
  ask : Edge d i asking absent waiting
  confirm :
      (topic challenge : String) (lease : ℕ)
      → has_row d i topic ≡ true
      → Edge d i (verifying i (some (Verify.subscribes topic challenge lease))) waiting active
  forget : {p : Phase} → Edge d i removing p absent
  replace :
      {p : Phase} (id : ℕ) (q : Option Verify) → IsOldOf id i d → Edge d i (verifying id q) p absent

module _ (d : Db) (i : ℕ) where
  asks_move :
      (a s a' s' : Bool)
      → a' ≡ a
      → (s ≡ true → s' ≡ true)
      → Edge d i asking (phase_of a s) (phase_of a' s')
  asks_move true s a' s' e k = rw e stay
  asks_move false true a' s' e k = rw (e, k refl) stay
  asks_move false false a' true e k = rw e ask
  asks_move false false a' false e k = rw e stay

  forgets_move :
      (a s a' s' : Bool)
      → a' ≡ (s' && a)
      → (s ≡ false → s' ≡ false)
      → Edge d i removing (phase_of a s) (phase_of a' s')
  forgets_move a s a' false e k = rw e forget
  forgets_move true s a' true e k = rw e stay
  forgets_move false true a' true e k = rw e stay
  forgets_move false false a' true e k = absurd (cc (k refl))

  -- The row of one that is not there any more, or is there as before.
  same_move :
      (c : Cause) (a s a' s' : Bool)
      → a ≡ (s && a)
      → a' ≡ (s' && a)
      → s' ≡ s
      → Edge d i c (phase_of a s) (phase_of a' s')
  same_move c true true a' s' w e k = rw (e, k) stay
  same_move c true false a' s' w e k = absurd (cc w)
  same_move c false true a' s' w e k = rw (e, k) stay
  same_move c false false a' s' w e k = rw (e, k) stay

  replaced_move :
      (id : ℕ) (q : Option Verify) (a s a' s' : Bool)
      → IsOldOf id i d
      → a' ≡ (s' && a)
      → (s ≡ false → s' ≡ false)
      → Edge d i (verifying id q) (phase_of a s) (phase_of a' s')
  replaced_move id q a s a' false o e k = rw e (replace id q o)
  replaced_move id q true s a' true o e k = rw e stay
  replaced_move id q false true a' true o e k = rw e stay
  replaced_move id q false false a' true o e k = absurd (cc (k refl))

  accepts_move :
      (topic challenge : String) (lease : ℕ) (a s a' s' : Bool)
      → has_row d i topic ≡ true
      → (s && not a) ≡ true
      → a' ≡ true
      → Edge d i
          (verifying i (some (Verify.subscribes topic challenge lease)))
          (phase_of a s)
          (phase_of a' s')
  accepts_move topic challenge lease true true a' s' r w e = absurd (cc w)
  accepts_move topic challenge lease true false a' s' r w e = absurd (cc w)
  accepts_move topic challenge lease false true a' s' r w e = rw e (confirm topic challenge lease r)
  accepts_move topic challenge lease false false a' s' r w e = absurd (cc w)

-- A verification that leaves the active row of `i` where its row is left.
verifying-Edge :
    (d d' : Db) (i id : ℕ) (q : Option Verify)
    → IsValid d
    → is_active d' i ≡ (has_sub d' i && is_active d i)
    → (has_sub d i ≡ false → has_sub d' i ≡ false)
    → (has_sub d' i ≡ has_sub d i) ⊎ IsOldOf id i d
    → Edge d i (verifying id q) (phase d i) (phase d' i)
verifying-Edge d d' i id q v act comes (inl same) =
    same_move d i (verifying id q) (is_active d i) (has_sub d i) (is_active d' i) (has_sub d' i)
      (ground (arith, v.covered i)) act same
verifying-Edge d d' i id q v act comes (inr old) =
    replaced_move d i id q (is_active d i) (has_sub d i) (is_active d' i) (has_sub d' i) old act
      comes

module _ (b : Library) (callback : Uri) {d d' : Db} {sent : List Request} (i : ℕ) where
  Asks-Edge : Asks b callback sent d d' → Edge d i asking (phase d i) (phase d' i)
  Asks-Edge g =
      asks_move d i (is_active d i) (has_sub d i) (is_active d' i) (has_sub d' i)
        (ap (has (λ a. a.id) i) g.same_active) (g.keeps i)

  Forgets-Edge : Forgets b callback sent d d' → Edge d i removing (phase d i) (phase d' i)
  Forgets-Edge g =
      forgets_move d i (is_active d i) (has_sub d i) (is_active d' i) (has_sub d' i)
        (g.active_left i) (g.comes_not i)

  Accepts-Edge :
      (id : ℕ) (q : Option Verify)
      → IsValid d
      → IsFor id d q
      → Accepts b callback id sent d d'
      → Edge d i (verifying id q) (phase d i) (phase d' i)
  Accepts-Edge id q v (topic, challenge, lease, is, row) g = elim (Bool-cases (id == i)) [
    | inl e ↦
        subst (λ k. Edge d k (verifying id q) (phase d k) (phase d' k)) ((==_iff id i).0 e)
          (rw is (
            accepts_move d id topic challenge lease (is_active d id) (has_sub d id)
              (is_active d' id) (has_sub d' id) row g.was g.is))
    | inr e ↦ verifying-Edge d d' i id q v (g.others i e) (g.comes_not i) (g.leaves i)
  ]

step-Edge :
    (b : Library) (callback : Uri) {w u : World}
    → IsSound b callback w
    → (s : Step b callback w u) (i : ℕ) → Edge w.db i (cause s) (phase w.db i) (phase u.db i)
unfolding remove_dangling_subscriptions
step-Edge b callback {w} h (subscribes hub topic rng rs d e) i =
    Asks-Edge b callback i
      (subscribe-Asks b callback hub topic rng w.db d rs w.sent h.valid h.asked e)
step-Edge b callback {w} h (verifies margin now id q v e) i =
    elim (verify_intent-Verifies b callback margin now id q w.sent w.db v h.valid h.asked e) [
      | inl (g, n, for) ↦ Accepts-Edge b callback i id q h.valid for g
      | inr (g, n, same) ↦
          verifying-Edge w.db v.db i id q h.valid (g.active_left i) (g.comes_not i)
            (inl (ap (λ (d : Db). has_sub d i) same))
    ]
step-Edge b callback {w} h (verification_crashes margin now id q rs d e) i =
    let (g, l) =
      verify_intent-crash b callback margin now id q rs w.sent w.db d h.valid h.asked e in
    verifying-Edge w.db d i id q h.valid (g.active_left i) (g.comes_not i) (l i)
step-Edge b callback {w} h (renews margin now rng rs d e) i =
    Asks-Edge b callback i
      (renew_subscriptions-Asks b callback margin now rng w.db d rs w.sent h.valid h.asked e)
step-Edge b callback {w} h (unsubscribes id hub topic rs d e) i = Forgets-Edge b callback i (
    unsubscribes-Forgets b callback (λ s. s.id == id) rs w.sent w.db
      (left-unsubscribe b callback id hub topic w.db rs d e) h.valid h.asked)
step-Edge b callback {w} h (leaves topic rs d e) i = Forgets-Edge b callback i (
    unsubscribes-Forgets b callback (λ s. str_eq s.topic topic) rs w.sent w.db
      (left-unsubscribe_all b callback topic w.db rs d e) h.valid h.asked)
step-Edge b callback {w} h restarts i = Forgets-Edge b callback i (
    unsubscribes-Forgets b callback (λ s. not (is_active w.db s.id)) [] w.sent w.db refl h.valid
      h.asked)

-- From any world that can be reached, an operation takes each id along an edge of the diagram: one that
-- is absent starts to wait only by a subscription or a renewal; one that waits becomes active only by
-- the answer to an intent to subscribe that has its id and the topic of its row; and one goes only by an
-- operation that removes subscriptions, or by the answer to an intent for its own renewal.
pub Reach-Edge :
    (b : Library) (callback : Uri) {w u : World}
    → Reach b callback w
    → (s : Step b callback w u) (i : ℕ) → Edge w.db i (cause s) (phase w.db i) (phase u.db i)
Reach-Edge b callback r s i = step-Edge b callback (Reach-IsSound b callback r) s i
