-- ===== src/Manifest/Paths.antt =====
-- src/manifest.rs: `resolve_paths`. Texts are lists of bytes; `Path` of the standard library is a
-- parameter, and so is the variable `DATABASE_URL`.
pub mod Resolved
use pipitor.Base.{
  ℕ, Bool, true, false, not, ◌&&◌, ◌||◌, List, [], ◌∷◌, ◌++◌, ◌==◌, Option, none, some, drop,
  if◌then◌else◌,
}
use pipitor.Util.Socket.{strip_prefix}

-- `Path::is_absolute`, and `Path::join` of a base and a path.
pub record Paths : Type 0 where
  pub is_absolute : List ℕ → Bool
  pub join : List ℕ → List ℕ → List ℕ

abbrev pub bytes_eq : List ℕ → List ℕ → Bool
bytes_eq [] [] = true
bytes_eq [] (y ∷ ys) = false
bytes_eq (x ∷ xs) [] = false
bytes_eq (x ∷ xs) (y ∷ ys) = x == y && bytes_eq xs ys

unfoldable pub starts_with : List ℕ → List ℕ → Bool
unfolding strip_prefix
starts_with p s = elim (strip_prefix p s) [ none ↦ false | some rest ↦ true ]

-- `file:`, what follows it in an absolute address, and `:memory:`.
abbrev pub file : List ℕ
file = b'f' ∷ b'i' ∷ b'l' ∷ b'e' ∷ b':' ∷ []

abbrev pub slash : List ℕ
slash = b'/' ∷ []

abbrev pub localhost : List ℕ
localhost =
    file
    ++ slash
    ++ slash
    ++ b'l' ∷ b'o' ∷ b'c' ∷ b'a' ∷ b'l' ∷ b'h' ∷ b'o' ∷ b's' ∷ b't' ∷ b'/' ∷ []

abbrev pub memory : List ℕ
memory = b':' ∷ b'm' ∷ b'e' ∷ b'm' ∷ b'o' ∷ b'r' ∷ b'y' ∷ b':' ∷ []

-- `strip_prefix(prefix).map_or(false, |s| !s.starts_with(next))`.
unfoldable pub follows_not : List ℕ → List ℕ → List ℕ → Bool
unfolding starts_with strip_prefix
follows_not prefix next s = elim (strip_prefix prefix s) [
  | none ↦ false
  | some rest ↦ not (starts_with next rest)
]

-- `find`, of a byte, with `split_at` at what it finds.
unfoldable pub split_find : ℕ → List ℕ → Option (List ℕ × List ℕ)
split_find c [] = none
split_find c (x ∷ s) =
    if x == c
    then some ([], x ∷ s)
    else elim (split_find c s) [ none ↦ none | some halves ↦ some (x ∷ halves.0, halves.1) ]

-- The path of the address, and its query and fragment.
unfoldable pub split_path : List ℕ → List ℕ × List ℕ
unfolding split_find
split_path s = elim (split_find b'?' s) [
  | some halves ↦ halves
  | none ↦ elim (split_find b'#' s) [ some halves ↦ halves | none ↦ (s, []) ]
]

module _ (p : Paths) where
  unfoldable pub resolve_path : List ℕ → List ℕ → Option (List ℕ)
  resolve_path path base = if p.is_absolute path then none else some (p.join base path)

  abbrev resolved : List ℕ → Option (List ℕ) → Option (List ℕ)
  resolved rest none = none
  resolved rest (some new) = some (file ++ new ++ rest)

  unfoldable pub resolve_database_uri : List ℕ → List ℕ → Option (List ℕ)
  unfolding resolve_path starts_with follows_not split_path
  resolve_database_uri uri base =
      if starts_with (file ++ slash ++ slash ++ slash) uri
        || starts_with localhost uri
        || follows_not (file ++ slash) slash uri
        || bytes_eq uri memory
      then none
      else if follows_not file (slash ++ slash) uri
      then (let (path, query_and_fragment) = split_path (drop 5 uri) in
          resolved query_and_fragment (resolve_path path base))
      else resolve_path uri base

  -- The address of the database after `resolve_paths`.
  unfoldable pub resolve_paths : Option (List ℕ) → List ℕ → Option (List ℕ)
  unfolding resolve_database_uri
  resolve_paths none base = none
  resolve_paths (some uri) base = elim (resolve_database_uri uri base) [
    | none ↦ some uri
    | some new ↦ some new
  ]

-- `Manifest::database_url`; `var` is the variable, if it is set.
unfoldable pub database_url : Option (List ℕ) → Option (List ℕ) → List ℕ → List ℕ
database_url (some url) var default = url
database_url none (some url) default = url
database_url none none default = default
