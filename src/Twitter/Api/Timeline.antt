-- ===== src/Twitter/Api/Timeline.antt =====
-- The requests of the list timeline, with the parameters that it does not set.
use pipitor.Base.{
  ℕ, ◌-◌, false, Option, none, some, ◌≡◌, refl, Bool-cases, Option-cases, inl, inr, if◌then◌else◌,
}
use mathlib.Core.Option
use pipitor.Base.Int.{ℤ, pos, int_eq, int_min, int_pred}
use pipitor.Manifest.Matching.{Tweet}
use pipitor.Twitter.Api.{
  Statuses, extended, new_statuses, set_since_id, set_max_id, set_count, set_include_rts,
  first_request, next_request, send_request,
}
use pipitor.Twitter.ListTimeline.{Sender, send, first_page, next_page}
use pipitor.Twitter.ListTimeline
use pipitor.Twitter.Snowflake.{system_time_to_snowflake}

-- The request of the timeline in full: extended Tweets, without their entities.
abbrev pub in_full : pipitor.Twitter.ListTimeline.Statuses → Statuses
in_full r = record {
  list_id = r.list_id;
  since_id = r.since_id;
  max_id = r.max_id;
  count = r.count;
  include_entities = false;
  include_rts = r.include_rts;
  tweet_mode = some extended;
}

-- The id that a poll asks since; `none` where the conversion of the time panics.
abbrev pub polled_since : ℕ → Sender → Option (Option ℤ)
polled_since now s =
    if int_eq s.since_id (pos 0)
    then some none
    else elim (system_time_to_snowflake (now - s.delay)) [
      | none ↦ none
      | some min ↦ some (some (int_min s.since_id (pos min)))
    ]

-- The requests of the timeline and of its backfill are those that the setters make of a new request: each
-- asks for extended Tweets, and none for the entities that the URLs of a Tweet are expanded by.
pub requests-in_full :
    (now : ℕ) (s : Sender) (since_id : ℤ) (last : Tweet)
    → (in_full (first_page s.list_id since_id) ≡ first_request s.list_id since_id)
      × (in_full (next_page s.list_id since_id last)
          ≡ next_request s.list_id since_id (int_pred last.id))
      × (Option.map in_full (send now s) ≡ Option.map (send_request s.list_id) (polled_since now s))
unfolding first_page next_page send new_statuses set_since_id set_max_id set_count set_include_rts
    first_request next_request send_request
requests-in_full now s since_id last = (
  refl,
  refl,
  elim (Bool-cases (int_eq s.since_id (pos 0))) [
    | inl e ↦ rw e refl
    | inr e ↦ elim (Option-cases (system_time_to_snowflake (now - s.delay))) [
      | inl p ↦ rw (e, p) refl
      | inr (n, p) ↦ rw (e, p) refl
    ]
  ],
)
