-- ===== src/Twitter/ListTimeline/Progress.antt =====
-- The id since which the list is polled, over any sequence of answers.
use pipitor.Base.{
  true, false, List, [], ◌∷◌, ◌≡◌, arith, All, All-append, Option, none, some, if-both, ◌==◌,
}
use pipitor.Base.Int.{ℤ, int_leb, int_leb_refl, int_leb_trans, int_max, ◌≤ℤ◌}
use pipitor.Manifest.Matching.{Tweet}
use pipitor.Twitter.ListTimeline.{
  Answer, Sender, Statuses, RateLimit, set_since_id, limit, push, answered, poll_backfill, tweets,
  twitter_error, other_error,
}

-- What happens to the sender: an answer to a poll, one to the backfill, or the receiver takes a
-- page or goes away.
pub data Event : Type 0 where
  polled : Answer → Event
  backfilled : ℤ → Option (List Tweet) → Event
  taken closed : Event

abbrev tail : List (List Tweet) → List (List Tweet)
tail [] = []
tail (p ∷ ps) = ps

pub step : Event → Sender → Sender
step (polled a) s = answered a s
step (backfilled since_id page) s = (poll_backfill since_id page s).1
step taken s = record s { queue = tail s.queue }
step closed s = record s { is_open = false }

pub run : List Event → Sender → Sender
unfolding step
run [] s = s
run (e ∷ es) s = run es (step e s)

-- The newest Tweet of a page is not above an id.
pub NewestUpTo : ℤ → List Tweet → Type 0
NewestUpTo id [] = Unit
NewestUpTo id (t ∷ ts) = t.id ≤ℤ id

-- The newest Tweet of every page in the channel is not above the id that is polled since.
unfoldable pub IsCovered : Sender → Type 0
unfolding NewestUpTo
IsCovered s = All (NewestUpTo s.since_id) s.queue

max_le_left : (a b : ℤ) → int_leb a (int_max a b) ≡ true
max_le_left a b = ground (arith, int_leb_refl a)

max_le_right : (a b : ℤ) → int_leb b (int_max a b) ≡ true
max_le_right a b = ground (arith, int_leb_refl b, total a b)
  where
    total : (x y : ℤ) → int_leb x y ≡ false → int_leb y x ≡ true
    total x y h = ground arith

raised :
    (a b : ℤ) (pages : List (List Tweet))
    → int_leb a b ≡ true
    → All (NewestUpTo a) pages
    → All (NewestUpTo b) pages
unfolding NewestUpTo
raised a b [] h k = tt
raised a b ([] ∷ pages) h k = (tt, raised a b pages h k.1)
raised a b ((t ∷ ts) ∷ pages) h k = (int_leb_trans t.id a b k.0 h, raised a b pages h k.1)

All-tail : (P : List Tweet → Type 0) (pages : List (List Tweet)) → All P pages → All P (tail pages)
All-tail P [] h = tt
All-tail P (p ∷ ps) h = h.1

-- A sender that has gone on from another.
pub record Advances (s s' : Sender) : Type 0 where
  pub not_back : s.since_id ≤ℤ s'.since_id
  pub covered : IsCovered s'

received :
    (t : Tweet) (ts : List Tweet) (s : Sender)
    → IsCovered s
    → Advances s (set_since_id t.id (push (t ∷ ts) s))
unfolding set_since_id IsCovered NewestUpTo
received t ts s h = record {
  not_back = max_le_left s.since_id t.id;
  covered =
      All-append (NewestUpTo (int_max s.since_id t.id)) s.queue ((t ∷ ts) ∷ [])
        (raised s.since_id (int_max s.since_id t.id) s.queue (max_le_left s.since_id t.id) h)
        (max_le_right s.since_id t.id, tt);
}

stays : (s : Sender) → IsCovered s → Advances s s
stays s h = record { not_back = int_leb_refl s.since_id; covered = h }

limit-Advances : (l : Option RateLimit) (s s' : Sender) → Advances s s' → Advances s (limit l s')
unfolding limit IsCovered
limit-Advances none s s' h = h
limit-Advances (some l) s s' h =
    if-both (Advances s) (l.remaining == 0) (record { not_back = h.not_back; covered = h.covered })
      h

step-Advances : (e : Event) (s : Sender) → IsCovered s → Advances s (step e s)
unfolding step answered poll_backfill set_since_id IsCovered
step-Advances (polled (tweets [] l)) s h = limit-Advances l s s (stays s h)
step-Advances (polled (tweets (t ∷ ts) l)) s h =
    if-both (Advances s) s.is_open
      (limit-Advances l s (set_since_id t.id (push (t ∷ ts) s)) (received t ts s h)) (stays s h)
step-Advances (polled (twitter_error l)) s h = limit-Advances l s s (stays s h)
step-Advances (polled other_error) s h = stays s h
step-Advances (backfilled since_id none) s h = stays s h
step-Advances (backfilled since_id (some [])) s h = stays s h
step-Advances (backfilled since_id (some (t ∷ ts))) s h =
    if-both (λ (r : Option Statuses × Sender). Advances s r.1) s.is_open (received t ts s h)
      (record {
        not_back = max_le_left s.since_id t.id;
        covered =
            raised s.since_id (int_max s.since_id t.id) s.queue (max_le_left s.since_id t.id) h;
      })
step-Advances taken s h = record {
  not_back = int_leb_refl s.since_id;
  covered = All-tail (NewestUpTo s.since_id) s.queue h;
}
step-Advances closed s h = record { not_back = int_leb_refl s.since_id; covered = h }

-- Over any sequence of answers, of the server to the polling and to the backfill in any order, and
-- of reads of the channel, the id that the list is polled since never goes back, and stays at least
-- as high as the newest Tweet of each page that waits in the channel.
pub run-Advances : (es : List Event) (s : Sender) → IsCovered s → Advances s (run es s)
unfolding run
run-Advances [] s h = stays s h
run-Advances (e ∷ es) s h =
    let one = step-Advances e s h in
    let more = run-Advances es (step e s) one.covered in
    record {
      not_back =
          int_leb_trans s.since_id (step e s).since_id (run es (step e s)).since_id one.not_back
            more.not_back;
      covered = more.covered;
    }
