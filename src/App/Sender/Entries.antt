-- ===== src/App/Sender/Entries.antt =====
-- src/app/sender.rs: `send_feed` and `send_entry`. `chars` gives the code points of a text, and
-- `route_entry` is the router's.
use pipitor.Base.{
  ℕ, ◌+◌, ◌-◌, ◌*◌, ◌≤◌, String, Bool, true, not, ◌&&◌, ◌||◌, List, [], ◌∷◌, ◌++◌, any, retain, map,
  length, All, str_eq, Option, none, some, if◌then◌else◌, ◌≡◌, refl, arith, ◌⊎◌, inl, inr, subst,
  sym, if-both,
}
use pipitor.Base.Int.{ℤ}
use pipitor.Manifest.{Outbox, outbox_user}
use pipitor.Manifest.Matching.{Entry}
use pipitor.Twitter.Text.{
  sanitize, length-sanitize, max_weighted_tweet_length, transformed_url_length,
}
use pipitor.App.Sender.{Tables, EntryRow, new_entry, sql_eq}

-- `entries::table.find((topic, id)).or_filter(link.eq(link))`.
abbrev pub is_row_of : String → Option String → String → EntryRow → Bool
is_row_of topic id link r = (str_eq r.topic topic && sql_eq r.id id) || str_eq r.link link

-- `replace_into`, by the primary key of the topic and the id; rows without an id have no key.
unfoldable pub replace_entry : EntryRow → List EntryRow → List EntryRow
replace_entry r rows = r ∷ retain (λ q. not (str_eq q.topic r.topic && sql_eq q.id r.id)) rows

-- `statuses::Update`, sent for a user.
pub record Update : Type 0 where
  pub user : ℤ
  pub text : List ℕ

module _ (chars : String → List ℕ) where
  unfoldable pub status : Option String → String → List ℕ
  status none link = chars link
  status (some title) link =
      sanitize (chars title) (max_weighted_tweet_length - 1 - transformed_url_length)
      ++ b'\n' ∷ chars link

  module _ (route_entry : String → Entry → List Outbox) where
    -- By the link of the entry.
    abbrev pub send_link : String → Entry → Option String → Tables → List Update
    send_link topic e none s = []
    send_link topic e (some link) s =
        if any (is_row_of topic e.id link) s.entries
        then []
        else map (λ o. record { user = outbox_user o; text = status e.title link })
            (route_entry topic e)

    unfoldable pub send_entry : String → Entry → Tables → List Update
    send_entry topic e s = send_link topic e e.link s

    -- The updates of `send_feed`, which end only after it.
    unfoldable pub send_feed : String → List Entry → Tables → List Update
    unfolding send_entry
    send_feed topic [] s = []
    send_feed topic (e ∷ es) s = send_entry topic e s ++ send_feed topic es s

-- The end of an update: `NewEntry::new` gives a row, since an entry without a link is not sent.
unfoldable pub finish_update : String → Entry → Bool → Tables → Tables
unfolding replace_entry new_entry
finish_update topic e is_sent s = elim (new_entry topic e) [
  | none ↦ s
  | some r ↦ if is_sent then record s { entries = replace_entry r s.entries } else s
]

module _ (chars : String → List ℕ) (route_entry : String → Entry → List Outbox) where
  -- After an update for an entry has been sent, no update is sent for an entry with its link, or
  -- with its topic and id.
  pub send_entry-finish_update :
      (topic topic' link link' : String) (e e' : Entry) (s : Tables)
      → e.link ≡ some link
      → e'.link ≡ some link'
      → ((str_eq topic topic' && sql_eq e.id e'.id) || str_eq link link') ≡ true
      → send_entry chars route_entry topic' e' (finish_update topic e true s) ≡ []
  unfolding send_entry finish_update replace_entry new_entry
  send_entry-finish_update topic topic' link link' e e' s l l' same = ground arith

  -- The text of an update: the link alone, or a title of which the link leaves enough of the limit
  -- if each of its characters weighs 2.
  pub IsWithinLimit : String → Update → Type 0
  IsWithinLimit link u =
      (u.text ≡ chars link)
      ⊎ ((title : List ℕ) × (u.text ≡ title ++ b'\n' ∷ chars link)
          × (2 * length title + 1 + transformed_url_length ≤ max_weighted_tweet_length))

  status-IsWithinLimit :
      (user : ℤ) (title : Option String) (link : String)
      → IsWithinLimit link (record { user = user; text = status chars title link })
  unfolding status IsWithinLimit
  status-IsWithinLimit user none link = inl refl
  status-IsWithinLimit user (some title) link =
      let bound = (length-sanitize (chars title) 256 (omega arith) (omega arith)).0 in
      inr (sanitize (chars title) 256, refl, omega (arith, bound))

  map-IsWithinLimit :
      (title : Option String) (link : String) (os : List Outbox)
      → All
          (IsWithinLimit link)
          (map (λ o. record { user = outbox_user o; text = status chars title link }) os)
  map-IsWithinLimit title link [] = tt
  map-IsWithinLimit title link (o ∷ os) =
      (status-IsWithinLimit (outbox_user o) title link, map-IsWithinLimit title link os)

  -- Every update for an entry with a link is within the limit of a Tweet, if each character weighs
  -- at most 2 and the link as much as a shortened one.
  pub send_entry-IsWithinLimit :
      (topic link : String) (e : Entry) (s : Tables)
      → e.link ≡ some link
      → All (IsWithinLimit link) (send_entry chars route_entry topic e s)
  unfolding send_entry
  send_entry-IsWithinLimit topic link e s l =
      subst
        (λ (o : Option String). All (IsWithinLimit link) (send_link chars route_entry topic e o s))
        (sym l)
        (if-both (All (IsWithinLimit link)) (any (is_row_of topic e.id link) s.entries) tt
          (map-IsWithinLimit e.title link (route_entry topic e)))
