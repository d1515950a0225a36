-- ===== src/Tests/Reading.antt =====
-- The theorems on the manifests that are read and on their databases, at concrete inputs.
use pipitor.Base.{
  ℕ, List, [], ◌∷◌, ◌++◌, ◌==◌, Bool, String, true, false, All, Option, none, some, ◌≡◌, refl,
}
use pipitor.Base.Int.{pos}
use pipitor.Manifest.{Manifest, validate, twitter_topics, twitter_outboxes}
use pipitor.Manifest.Value.{
  Value, integer, text, array, table, value, no_values, field, no_fields, in_i64,
}
use pipitor.Manifest.Deserialize.{Readers, deserialize}
use pipitor.Manifest.Deserialize.Bounds.{deserialize-in_i64}
use pipitor.Manifest.Paths.{Paths, resolve_path, resolve_database_uri, resolve_paths}
use pipitor.Tests.Application.{manifest}

-- A manifest with one rule, whose outbox is user 7.
abbrev written : Value
written = table (
    field "rule"
      (array (
        value
          (table (
            field "outbox" (integer (pos 7)) (
              field "topics"
                (array (value (text "https://feed") (value (integer (pos 5)) no_values)))
                no_fields)))
          no_values))
      (field "twitter"
        (table (
          field "client"
            (table (field "identifier" (text "a") (field "secret" (text "b") no_fields)))
            (field "user" (integer (pos 7)) no_fields)))
        no_fields))

abbrev readers : Readers String
readers = record { regex = λ s. some s; uri = λ s. some (true, false); addr = λ s. true }

abbrev the_manifest : Option (Manifest String) → Manifest String
the_manifest (some m) = m
the_manifest none = manifest

abbrev read : Manifest String
read = the_manifest (deserialize readers written)

deserialize-in_i64_example :
    (validate read ≡ none)
    × All (λ u. in_i64 u ≡ true) (twitter_topics read)
    × All (λ u. in_i64 u ≡ true) (twitter_outboxes read)
unfolding deserialize validate
deserialize-in_i64_example = deserialize-in_i64 readers written read refl

-- Paths of Unix, and an address relative to `/b`.
abbrev is_absolute : List ℕ → Bool
is_absolute [] = false
is_absolute (c ∷ s) = c == b'/'

abbrev paths : Paths
paths = record { is_absolute = is_absolute; join = λ base path. base ++ b'/' ∷ path }

abbrev base : List ℕ
base = b'/' ∷ b'b' ∷ []

-- The base is the path of the manifest and not that of its directory.
resolved_in_manifest :
    resolve_paths paths (some (b'd' ∷ [])) (b'P' ∷ b'.' ∷ b't' ∷ [])
    ≡ some (b'P' ∷ b'.' ∷ b't' ∷ b'/' ∷ b'd' ∷ [])
unfolding resolve_paths resolve_database_uri resolve_path
resolved_in_manifest = refl
