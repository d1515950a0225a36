-- ===== src/Twitter/Entities.antt =====
-- src/twitter/models.rs: the text of a Tweet whose shortened URLs are expanded, with
-- `replace_char_range` and `char_index_to_byte_index` of src/util.rs. A text is the list of its
-- characters' code points, an offset in bytes counts their encodings.
pub mod Bytes
pub mod Splice
use pipitor.Base.{
  ℕ, suc, ◌+◌, ◌-◌, ◌%◌, ◌^◌, List, [], ◌∷◌, ◌++◌, Bool, Option, none, some, ltb, leb, ◌==◌, length,
  if◌then◌else◌,
}
use pipitor.Base.Int.{ℤ}

-- `char::len_utf8`.
unfoldable pub len_utf8 : ℕ → ℕ
len_utf8 c = if ltb c 0x80 then 1 else if ltb c 0x800 then 2 else if ltb c 0x10000 then 3 else 4

-- `str::len`.
unfoldable pub byte_len : List ℕ → ℕ
byte_len [] = 0
byte_len (c ∷ s) = len_utf8 c + byte_len s

-- `split_at`, by an offset in bytes; `none` where the slice panics.
unfoldable pub split_at : List ℕ → ℕ → Option (List ℕ × List ℕ)
split_at [] n = if n == 0 then some ([], []) else none
split_at (c ∷ s) n =
    if n == 0
    then some ([], c ∷ s)
    else if ltb n (len_utf8 c)
    then none
    else elim (split_at s (n - len_utf8 c)) [
      | none ↦ none
      | some halves ↦ some (c ∷ halves.0, halves.1)
    ]

-- The loop of `char_index_to_byte_index`.
unfoldable pub count : List ℕ → ℕ → ℕ → ℕ → Option ℕ
count [] bi ci char_index = none
count (c ∷ s) bi ci char_index =
    if suc ci == char_index
    then some (bi + len_utf8 c)
    else count s (bi + len_utf8 c) (suc ci) char_index

unfoldable pub char_index_to_byte_index : List ℕ → ℕ → Option ℕ
char_index_to_byte_index s char_index = if char_index == 0 then some 0 else count s 0 0 char_index

-- `a - b` in a release build.
unfoldable pub wrapping_sub : ℕ → ℕ → ℕ
wrapping_sub a b = (a + 2 ^ 64 - b) % 2 ^ 64

pub data Replaced : Type 0 where
  replaced : ℕ → List ℕ → Replaced
  absent panicked : Replaced

-- `s.replace_range(start..end, replace_with)`.
unfoldable pub replace_range : List ℕ → ℕ → ℕ → List ℕ → Option (List ℕ)
replace_range s start end replace_with = elim (split_at s end) [
  | none ↦ none
  | some (before, after) ↦ elim (split_at before start) [
    | none ↦ none
    | some (kept, old) ↦ some (kept ++ replace_with ++ after)
  ]
]

-- From where the start is known.
unfoldable pub replace_from : List ℕ → ℕ → ℕ → List ℕ → Replaced
replace_from s start len replace_with = elim (split_at s start) [
  | none ↦ panicked
  | some halves ↦ elim (char_index_to_byte_index halves.1 len) [
    | none ↦ absent
    | some i ↦ elim (replace_range s start (start + i) replace_with) [
      | none ↦ panicked
      | some s' ↦ replaced start s'
    ]
  ]
]

unfoldable pub replace_char_range : List ℕ → ℕ → ℕ → ℕ → List ℕ → Replaced
replace_char_range s base_byte_offset start end replace_with = elim (split_at s base_byte_offset) [
  | none ↦ panicked
  | some halves ↦ elim (char_index_to_byte_index halves.1 start) [
    | none ↦ absent
    | some i ↦ replace_from s (base_byte_offset + i) (wrapping_sub end start) replace_with
  ]
]

pub record Url : Type 0 where
  pub expanded_url : List ℕ
  -- `indices`.
  pub start : ℕ
  pub end : ℕ

pub record Entities : Type 0 where
  pub urls : List Url
  pub media : List Url

pub data Invalid : Type 0 where
  start_after_end overlap out_of_range : Invalid

pub data Expanded (A : Type 0) : Type 0 where
  expanded : A → Expanded A
  invalid : Invalid → Expanded A
  panicked : Expanded A

-- `sort_by_key(|u| u.indices.0)`, which is stable.
unfoldable pub insert_by_start : Url → List Url → List Url
insert_by_start u [] = u ∷ []
insert_by_start u (v ∷ us) = if leb u.start v.start then u ∷ v ∷ us else v ∷ insert_by_start u us

unfoldable pub sort_by_start : List Url → List Url
sort_by_start [] = []
sort_by_start (u ∷ us) = insert_by_start u (sort_by_start us)

-- The URLs and the media in one list, the shorter one appended to the longer.
unfoldable pub merged : Entities → List Url
merged e = if ltb (length e.media) (length e.urls) then e.urls ++ e.media else e.media ++ e.urls

-- The loop of `expand_urls`.
unfoldable pub expand_each : List ℕ → ℕ → ℕ → List Url → Expanded (List ℕ)
expand_each text byte_offset char_offset [] = expanded text
expand_each text byte_offset char_offset (u ∷ us) =
    if ltb u.end u.start
    then invalid start_after_end
    else if ltb u.end byte_offset
    then invalid overlap
    else elim (replace_char_range text byte_offset (wrapping_sub u.start char_offset)
        (wrapping_sub u.end char_offset) u.expanded_url) [
          | replaced i text' ↦ expand_each text' (i + byte_len u.expanded_url) u.end us
          | absent ↦ invalid out_of_range
          | panicked ↦ panicked
        ]

unfoldable pub expand_urls : List ℕ → Option Entities → Expanded (List ℕ)
expand_urls text none = expanded text
expand_urls text (some e) = expand_each text 0 0 (sort_by_start (merged e))

-- What is deserialized first: `text` also reads `full_text`.
pub record ExtendedTweet : Type 0 where
  pub full_text : List ℕ
  pub entities : Option Entities

pub record RawTweet : Type 0 where
  pub id : ℤ
  pub text : List ℕ
  pub in_reply_to_status_id : Option ℤ
  pub in_reply_to_user_id : Option ℤ
  pub user : ℤ
  pub extended_tweet : Option ExtendedTweet
  pub quoted_status : Option ℤ
  pub is_retweet : Bool
  pub entities : Option Entities

pub record Tweet : Type 0 where
  pub id : ℤ
  pub text : List ℕ
  pub in_reply_to_status_id : Option ℤ
  pub in_reply_to_user_id : Option ℤ
  pub user : ℤ
  pub quoted_status : Option ℤ
  pub is_retweet : Bool

-- The text and the entities that the text of the Tweet is made of.
unfoldable pub source_text : RawTweet → List ℕ × Option Entities
source_text t = elim t.extended_tweet [
  | none ↦ (t.text, t.entities)
  | some e ↦ (e.full_text, e.entities)
]

unfoldable pub deserialize : RawTweet → Expanded Tweet
deserialize t = elim (expand_urls (source_text t).0 (source_text t).1) [
  | expanded text ↦ expanded (record {
    id = t.id;
    text = text;
    in_reply_to_status_id = t.in_reply_to_status_id;
    in_reply_to_user_id = t.in_reply_to_user_id;
    user = t.user;
    quoted_status = t.quoted_status;
    is_retweet = t.is_retweet;
  })
  | invalid e ↦ invalid e
  | panicked ↦ panicked
]
