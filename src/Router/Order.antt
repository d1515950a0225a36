-- ===== src/Router/Order.antt =====
-- The abstract view of a manifest's rules: what they lead to, whatever their order.
use pipitor.Base.{
  ℕ, ◌+◌, String, Bool, List, [], ◌∷◌, ◌++◌, ◌≡◌, refl, sym, ap, ◌∙◌, arith, retain, retain-append,
  append_assoc, if◌then◌else◌,
}
use mathlib.Core.Quot
use mathlib.Core.Quot.{Quot, Quot-set}
use native.Mathlib.Nat.{ℕ_set}
use pipitor.Base.Int.{ℤ, int_eq}
use pipitor.Manifest.{TopicId, Outbox, Route, Rule, Manifest, outbox_user}
use pipitor.Manifest.Matching.{Entry, Tweet}
use pipitor.Router.{from_manifest, outbox_all, passes_entry, passes_tweet, route_entry, route_tweet}
use pipitor.Router.Routes.{times, routes_for, route-from_manifest}

-- How often a user is among the outboxes.
abbrev pub count : ℤ → List Outbox → ℕ
count u [] = 0
count u (o ∷ os) = (if int_eq (outbox_user o) u then 1 else 0) + count u os

count-append : (u : ℤ) (xs ys : List Outbox) → count u (xs ++ ys) ≡ count u xs + count u ys
count-append u [] ys = omega arith
count-append u (x ∷ xs) ys = omega (arith, count-append u xs ys)

-- Outboxes without their order: the same users, as often.
abbrev pub SameOutboxes : List Outbox → List Outbox → Type 0
SameOutboxes xs ys = (u : ℤ) → count u xs ≡ count u ys

abbrev pub Bag : Type 0
Bag = Quot SameOutboxes

occurrences : ℤ → Bag → ℕ
occurrences u = Quot.lift ℕ_set (count u) (λ xs ys h. h u)

-- Lists that are the same without their order have the same users, as often.
SameOutboxes-eq :
    {xs ys : List Outbox} → ◌≡◌ {A = Bag} (Quot.mk xs) (Quot.mk ys) → SameOutboxes xs ys
unfolding occurrences
SameOutboxes-eq e u = ap (occurrences u) e

module _ {R : Type 0} where
  -- Two neighbouring rules change places.
  abbrev pub Swaps : List (Rule R) → List (Rule R) → Type 0
  Swaps xs ys =
      (before : List (Rule R)) × (r : Rule R) × (s : Rule R) × (after : List (Rule R)) × (xs
        ≡ before ++ (r ∷ s ∷ after))
      × (ys ≡ before ++ (s ∷ r ∷ after))

-- The rules of a manifest without their order.
abbrev pub Rules : Type 0 → Type 0
Rules R = Quot (Swaps {R = R})

module _ {R : Type 0} where
  outbox_all-append :
      (xs ys : List (Route R)) → outbox_all (xs ++ ys) ≡ outbox_all xs ++ outbox_all ys
  outbox_all-append [] ys = refl
  outbox_all-append (x ∷ xs) ys =
      ap (λ os. x.outbox ++ os) (outbox_all-append xs ys)
      ∙ sym (append_assoc x.outbox (outbox_all xs) (outbox_all ys))

  routes_for-append :
      (topic : TopicId) (xs ys : List (Rule R))
      → routes_for topic (xs ++ ys) ≡ routes_for topic xs ++ routes_for topic ys
  unfolding routes_for
  routes_for-append topic [] ys = refl
  routes_for-append topic (r ∷ xs) ys =
      ap (λ rs. times topic r.topics r.route ++ rs) (routes_for-append topic xs ys)
      ∙ sym
          (append_assoc (times topic r.topics r.route) (routes_for topic xs) (routes_for topic ys))

  module _ (topic : TopicId) (p : Route R → Bool) where
    -- The outboxes of the routes of a topic that pass.
    abbrev pub led_to : List (Rule R) → List Outbox
    led_to rules = outbox_all (retain p (routes_for topic rules))

    led_to-append : (xs ys : List (Rule R)) → led_to (xs ++ ys) ≡ led_to xs ++ led_to ys
    led_to-append xs ys =
        ap (λ rs. outbox_all (retain p rs)) (routes_for-append topic xs ys)
        ∙ ap outbox_all (retain-append p (routes_for topic xs) (routes_for topic ys))
        ∙ outbox_all-append (retain p (routes_for topic xs)) (retain p (routes_for topic ys))

    count-led_to :
        (u : ℤ) (xs ys : List (Rule R))
        → count u (led_to (xs ++ ys)) ≡ count u (led_to xs) + count u (led_to ys)
    count-led_to u xs ys =
        ap (count u) (led_to-append xs ys) ∙ count-append u (led_to xs) (led_to ys)

    led_to-Swaps : (xs ys : List (Rule R)) → Swaps xs ys → SameOutboxes (led_to xs) (led_to ys)
    led_to-Swaps xs ys (before, r, s, after, e, e') u =
        let one : Rule R → List (Rule R) = λ x. x ∷ [] in
        rw (e, e')
          (omega (
            arith,
            count-led_to u before (r ∷ s ∷ after),
            count-led_to u before (s ∷ r ∷ after),
            count-led_to u (one r) (s ∷ after),
            count-led_to u (one s) (r ∷ after),
            count-led_to u (one r) after,
            count-led_to u (one s) after,
          ))

    -- What rules without their order lead to.
    destinations : Rules R → Bag
    destinations =
        Quot.lift Quot-set (λ rules. Quot.mk (led_to rules))
          (λ xs ys h. Quot.sound (led_to-Swaps xs ys h))

  module _ (is_match : R → String → Bool) where
    -- If the rules of two manifests are the same but for their order, their routers lead each entry and
    -- each Tweet to the same outboxes, as often.
    pub route-reordered :
        (m m' : Manifest R) (topic : String) (e : Entry) (t : Tweet)
        → ◌≡◌ {A = Rules R} (Quot.mk m.rule) (Quot.mk m'.rule)
        → SameOutboxes
            (route_entry is_match (from_manifest m) topic e)
            (route_entry is_match (from_manifest m') topic e)
          × SameOutboxes
              (route_tweet is_match (from_manifest m) t)
              (route_tweet is_match (from_manifest m') t)
    unfolding destinations
    route-reordered m m' topic e t same =
        let (entries, tweets) = route-from_manifest is_match m topic e t in
        let (entries', tweets') = route-from_manifest is_match m' topic e t in
        (
          SameOutboxes-eq (
              ap Quot.mk entries
              ∙ ap (destinations (TopicId.feed topic) (passes_entry is_match e)) same
              ∙ sym (ap Quot.mk entries')),
          SameOutboxes-eq (
              ap Quot.mk tweets
              ∙ ap (destinations (TopicId.twitter t.user) (passes_tweet is_match t)) same
              ∙ sym (ap Quot.mk tweets')),
        )
