-- ===== src/Twitter/ListTimeline/Backfill.antt =====
-- The backfill against a server that answers from a timeline.
use pipitor.Base.{
  ℕ, zero, suc, ◌≤◌, ◌<◌, Bool, true, false, List, [], ◌∷◌, ◌++◌, ◌≡◌, refl, sym, ◌∙◌, ap, ap₂,
  subst, arith, retain, retain-All, All, length, Option, none, some, append-nil, append_assoc,
  length-append, All-retain, Bool-cases, inl, inr,
}
use pipitor.Base.Int.{ℤ, pos, negsuc, int_leb, int_ltb, int_pred}
use pipitor.Manifest.Matching.{Tweet}
use pipitor.Twitter.ListTimeline.{
  Statuses, Sender, set_since_id, last_of, push, first_page, next_page, poll_backfill, backfill,
}

leb-int_pred : (a b : ℤ) → int_leb a (int_pred b) ≡ int_ltb a b
leb-int_pred (pos a) (pos zero) = ground arith
leb-int_pred (pos a) (pos (suc b)) = ground arith
leb-int_pred (pos a) (negsuc b) = ground arith
leb-int_pred (negsuc a) (pos zero) = ground arith
leb-int_pred (negsuc a) (pos (suc b)) = ground arith
leb-int_pred (negsuc a) (negsuc b) = ground arith

int_ltb_asym : (a b : ℤ) → int_ltb a b ≡ true → int_ltb b a ≡ false
int_ltb_asym a b h = ground arith

int_ltb_irrefl : (a : ℤ) → int_ltb a a ≡ false
int_ltb_irrefl a = ground arith

int_ltb_leb_trans : (a b c : ℤ) → int_ltb a b ≡ true → int_leb b c ≡ true → int_leb a c ≡ true
int_ltb_leb_trans a b c h k = ground arith

-- The Tweets are in descending order of their ids, as Twitter returns them.
unfoldable pub IsDescending : List Tweet → Type 0
IsDescending [] = Unit {0}
IsDescending (t ∷ ts) = All (λ u. int_ltb u.id t.id ≡ true) ts × IsDescending ts

retain-IsDescending :
    (p : Tweet → Bool) (ts : List Tweet) → IsDescending ts → IsDescending (retain p ts)
unfolding IsDescending
retain-IsDescending p [] h = tt
retain-IsDescending p (t ∷ ts) h = elim (Bool-cases (p t)) [
  | inl e ↦ rw e (All-retain (λ u. int_ltb u.id t.id ≡ true) p ts h.0, retain-IsDescending p ts h.1)
  | inr e ↦ rw e (retain-IsDescending p ts h.1)
]

everything : (ts : List Tweet) → All (λ u. true ≡ true) ts
everything [] = tt
everything (t ∷ ts) = (refl, everything ts)

length-retain : (p : Tweet → Bool) (ts : List Tweet) → length (retain p ts) ≤ length ts
length-retain p [] = omega arith
length-retain p (t ∷ ts) = ground (arith, length-retain p ts)

retain_whole : (p : Tweet → Bool) (ts : List Tweet) → All (λ u. p u ≡ true) ts → retain p ts ≡ ts
retain_whole p [] h = refl
retain_whole p (t ∷ ts) h = ground (arith, retain_whole p ts h.1)

All-last_of : (P : Tweet → Type 0) (t : Tweet) (ts : List Tweet) → P t → All P ts → P (last_of t ts)
All-last_of P t [] h k = h
All-last_of P t (u ∷ us) h k = All-last_of P u us k.0 k.1

All-append_left : (P : Tweet → Type 0) (xs ys : List Tweet) → All P (xs ++ ys) → All P xs
All-append_left P [] ys h = tt
All-append_left P (x ∷ xs) ys h = (h.0, All-append_left P xs ys h.1)

-- What lies below the last Tweet of a page is what comes after the page.
below_page :
    (t : Tweet) (ts rest : List Tweet)
    → IsDescending (t ∷ ts ++ rest)
    → retain (λ u. int_ltb u.id (last_of t ts).id) (t ∷ ts ++ rest) ≡ rest
unfolding IsDescending
below_page t [] rest h = rw (int_ltb_irrefl t.id) (retain_whole (λ u. int_ltb u.id t.id) rest h.0)
below_page t (v ∷ vs) rest h =
    let last = last_of v vs in
    let above : int_ltb t.id last.id ≡ false = int_ltb_asym last.id t.id (
      All-last_of (λ u. int_ltb u.id t.id ≡ true) v vs h.0.0
        (All-append_left (λ u. int_ltb u.id t.id ≡ true) vs rest h.0.1)) in
    rw above (below_page v vs rest h.1)

-- What a request selects of a timeline.
pub after : Option ℤ → Tweet → Bool
after none t = true
after (some id) t = int_ltb id t.id

pub up_to : Option ℤ → Tweet → Bool
up_to none t = true
up_to (some id) t = int_leb t.id id

pub selected : List Tweet → Statuses → List Tweet
selected timeline r = retain (up_to r.max_id) (retain (after r.since_id) timeline)

-- Twitter's answers: a page is the beginning of what the request selects, and empty only if that
-- is.
pub record Serves (timeline : List Tweet) (server : Statuses → Option (List Tweet)) : Type 0 where
  pub page : Statuses → List Tweet
  pub rest : Statuses → List Tweet
  pub answers : (r : Statuses) → server r ≡ some (page r)
  pub begins : (r : Statuses) → page r ++ rest r ≡ selected timeline r
  pub ends : (r : Statuses) → page r ≡ [] → rest r ≡ []

-- The Tweets of the pages that wait in the channel.
pub concat : List (List Tweet) → List Tweet
concat [] = []
concat (p ∷ ps) = p ++ concat ps

concat-push : (ps : List (List Tweet)) (p : List Tweet) → concat (ps ++ p ∷ []) ≡ concat ps ++ p
unfolding concat
concat-push [] p = append-nil p
concat-push (q ∷ ps) p = rw (concat-push ps p) (sym (append_assoc q (concat ps) p))

narrow :
    (max : Option ℤ) (t : Tweet) (ts : List Tweet)
    → up_to max t ≡ true
    → retain (up_to (some (int_pred t.id))) ts
      ≡ retain (λ u. int_ltb u.id t.id) (retain (up_to max) ts)
unfolding up_to
narrow none t [] h = refl
narrow (some m) t [] h = refl
narrow none t (u ∷ us) h = ground (arith, leb-int_pred u.id t.id, narrow none t us h)
narrow (some m) t (u ∷ us) h =
    ground (arith, leb-int_pred u.id t.id, narrow (some m) t us h, int_ltb_leb_trans u.id t.id m)

last_of-up_to :
    (max : Option ℤ) (ts : List Tweet) (t : Tweet) (page rest : List Tweet)
    → t ∷ page ++ rest ≡ retain (up_to max) ts
    → up_to max (last_of t page) ≡ true
last_of-up_to max ts t page rest e =
    let held : All (λ u. up_to max u ≡ true) (t ∷ page ++ rest) =
      subst (All (λ u. up_to max u ≡ true)) (sym e) (retain-All (up_to max) ts) in
    All-last_of (λ u. up_to max u ≡ true) t page held.0
      (All-append_left (λ u. up_to max u ≡ true) page rest held.1)

-- The next request selects what the page left.
selected-next_page :
    (timeline : List Tweet) (list : ℕ) (since : ℤ) (r : Statuses) (t : Tweet)
    (page rest : List Tweet)
    → IsDescending timeline
    → r.since_id ≡ some since
    → t ∷ page ++ rest ≡ selected timeline r
    → selected timeline (next_page list since (last_of t page)) ≡ rest
unfolding selected next_page
selected-next_page timeline list since r t page rest d e b =
    let newer = retain (after (some since)) timeline in
    let b' : t ∷ page ++ rest ≡ retain (up_to r.max_id) newer =
      b ∙ ap (λ (o : Option ℤ). retain (up_to r.max_id) (retain (after o) timeline)) e in
    narrow r.max_id (last_of t page) newer (last_of-up_to r.max_id newer t page rest b')
    ∙ ap (retain (λ u. int_ltb u.id (last_of t page).id)) (sym b')
    ∙ below_page t page rest (
        subst IsDescending (sym b') (
          retain-IsDescending (up_to r.max_id) newer
            (retain-IsDescending (after (some since)) timeline d)))

-- The backfill has ended, and some Tweets have been sent after those that were in the channel.
pub Sends : Sender → List Tweet → Bool × Sender → Type 0
Sends s ts (ended, s') = (ended ≡ true) × (concat s'.queue ≡ concat s.queue ++ ts)

module _ (timeline : List Tweet) (server : Statuses → Option (List Tweet))
    (serves : Serves timeline server) (since : ℤ) (d : IsDescending timeline) where
  -- The backfill ends within some fuel and sends what is selected.
  Complete : ℕ → Type 0
  Complete n =
      (r : Statuses) (s : Sender)
      → s.is_open ≡ true
      → r.since_id ≡ some since
      → length (selected timeline r) < n
      → Sends s (selected timeline r) (backfill server since n r s)

  -- After one answer.
  proceed : ℕ → Option (List Tweet) → Sender → Bool × Sender
  proceed n page s = elim (poll_backfill since page s).0 [
    | none ↦ (true, (poll_backfill since page s).1)
    | some r ↦ backfill server since n r (poll_backfill since page s).1
  ]

  proceed-open :
      (n : ℕ) (t : Tweet) (ts : List Tweet) (s : Sender)
      → s.is_open ≡ true
      → proceed n (some (t ∷ ts)) s
        ≡ backfill server since n
            (next_page s.list_id since (last_of t ts))
            (push (t ∷ ts) (set_since_id t.id s))
  unfolding proceed poll_backfill
  proceed-open n t ts s o = ground (arith, o)

  page-Sends :
      (n : ℕ) (r : Statuses) (s : Sender) (page : List Tweet)
      → Complete n
      → serves.page r ≡ page
      → s.is_open ≡ true
      → r.since_id ≡ some since
      → length (selected timeline r) < suc n
      → Sends s (selected timeline r) (proceed n (some page) s)
  unfolding Complete proceed Sends poll_backfill set_since_id concat
  page-Sends n r s [] hyp pe o e lt =
      let nothing : [] ≡ selected timeline r =
        sym (ap₂ ◌++◌ pe (serves.ends r pe)) ∙ serves.begins r in
      (
        refl,
        sym (append-nil (concat s.queue)) ∙ ap (λ (z : List Tweet). concat s.queue ++ z) nothing,
      )
  page-Sends n r s (t ∷ ts) hyp pe o e lt =
      let rest = serves.rest r in
      let begins : t ∷ ts ++ rest ≡ selected timeline r =
        ap (λ (z : List Tweet). z ++ rest) (sym pe) ∙ serves.begins r in
      let r' = next_page s.list_id since (last_of t ts) in
      let remains : selected timeline r' ≡ rest =
        selected-next_page timeline s.list_id since r t ts rest d e begins in
      let s' : Sender = push (t ∷ ts) (set_since_id t.id s) in
      let shorter : length (selected timeline r') < n =
        omega (arith, lt, ap length remains, ap length begins, length-append (t ∷ ts) rest) in
      let done = hyp r' s' o refl shorter in
      subst (Sends s (selected timeline r)) (sym (proceed-open n t ts s o)) (
        done.0,
        done.1
            ∙ ap₂ ◌++◌ (concat-push s.queue (t ∷ ts)) remains
            ∙ append_assoc (concat s.queue) (t ∷ ts) rest
            ∙ ap (λ (z : List Tweet). concat s.queue ++ z) begins,
      )

  backfill-Complete : (n : ℕ) → Complete n
  unfolding backfill Complete proceed
  backfill-Complete zero r s o e lt = absurd (omega (arith, lt))
  backfill-Complete (suc n) r s o e lt =
      subst (λ (p : Option (List Tweet)). Sends s (selected timeline r) (proceed n p s))
        (sym (serves.answers r))
        (page-Sends n r s (serves.page r) (backfill-Complete n) refl o e lt)

  -- The backfill since an id: with as much fuel as the timeline has Tweets and one more, it ends,
  -- and has sent every Tweet of the timeline above that id, each once and in the timeline's order.
  -- The server answers from the timeline, whose ids descend, with pages of any length that are empty
  -- only at the end, and the channel is open.
  pub backfill-first_page :
      (list : ℕ) (s : Sender)
      → s.is_open ≡ true
      → Sends s
          (retain (λ t. int_ltb since t.id) timeline)
          (backfill server since (suc (length timeline)) (first_page list since) s)
  unfolding selected after up_to first_page Complete
  backfill-first_page list s o =
      let newer = retain (λ (t : Tweet). int_ltb since t.id) timeline in
      let all : selected timeline (first_page list since) ≡ newer =
        retain_whole (λ t. true) newer (everything newer) in
      subst
        (λ (ts : List Tweet).
          Sends s ts (backfill server since (suc (length timeline)) (first_page list since) s))
        all
        (backfill-Complete (suc (length timeline)) (first_page list since) s o refl (
          omega (arith, ap length all, length-retain (λ (t : Tweet). int_ltb since t.id) timeline)))
