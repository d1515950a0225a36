-- ===== src/Commands/Files.antt =====
-- src/bin/pipitor/common.rs: the search for the manifest and the path of the socket of `pipitor ctl`,
-- and the dispatch of src/bin/pipitor/main.rs. Names of files are lists of bytes.
use pipitor.Base.{ℕ, Bool, false, List, [], ◌∷◌, ◌++◌, Option, none, some, if◌then◌else◌}

-- `io::Result`, of which only the kind `NotFound` is told from the others.
pub data Io (A : Type 0) : Type 0 where
  ok : A → Io A
  not_found other_error : Io A

-- `Pipitor.toml`, `Pipitor.json` and `Pipitor.dhall`.
pub data Name : Type 0 where
  toml json dhall : Name
  given : List ℕ → Name

-- The manifest under the given name, or else under the default names in their order; `has_dhall` is the
-- feature.
module _ {A : Type 0} (has_dhall : Bool) (f : Name → Io A) where
  abbrev with_name : Name → Io A → Io (A × Name)
  with_name name (ok a) = ok (a, name)
  with_name name not_found = not_found
  with_name name other_error = other_error

  -- The next name, if there is no such file.
  abbrev or_else : Io (A × Name) → Io (A × Name) → Io (A × Name)
  or_else (ok r) next = ok r
  or_else not_found next = next
  or_else other_error next = other_error

  unfoldable pub search_manifest : Option (List ℕ) → Io (A × Name)
  search_manifest (some path) = with_name (given path) (f (given path))
  search_manifest none = or_else (with_name toml (f toml)) (
      or_else (with_name json (f json))
        (if has_dhall then with_name dhall (f dhall) else not_found))

-- The deserializers, by the extension of a path.
pub data Format : Type 0 where
  as_json as_dhall as_toml : Format

-- `Path::file_name`, `with_file_name` and `extension`, of which the last is compared with the names.
pub record Paths : Type 0 where
  pub file_name : List ℕ → Option (List ℕ)
  pub with_file_name : List ℕ → List ℕ → List ℕ
  pub is_json : List ℕ → Bool
  pub is_dhall : List ℕ → Bool

unfoldable pub format_of : Paths → Bool → List ℕ → Format
format_of p has_dhall path =
    if p.is_json path
    then as_json
    else if has_dhall
    then (if p.is_dhall path then as_dhall else as_toml)
    else as_toml

-- `ipc_path`; `none` where `unwrap` panics.
unfoldable pub ipc_path : Paths → List ℕ → Option (List ℕ)
ipc_path p path = elim (p.file_name path) [
  | none ↦ none
  | some name ↦ some (p.with_file_name path (b'.' ∷ name ++ b'.' ∷ b's' ∷ b'o' ∷ b'c' ∷ b'k' ∷ []))
]

-- The commands, and what runs each of them; those that wait for the network run in a runtime.
pub data Cmd : Type 0 where
  ctl migration run setup twitter_list_sync twitter_login websub : Cmd

pub data Dispatched : Type 0 where
  directly in_runtime : Cmd → Dispatched

unfoldable pub dispatch : Cmd → Dispatched
dispatch migration = directly migration
dispatch run = directly run
dispatch cmd = in_runtime cmd

-- `pipitor setup`: the migration, the login and the synchronization of the list, up to the first error.
unfoldable pub setup_with : (Cmd → Bool) → Bool
setup_with succeeds =
    if succeeds migration
    then (if succeeds twitter_login then succeeds twitter_list_sync else false)
    else false
