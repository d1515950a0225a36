-- ===== src/Manifest/Paths/Resolved.antt =====
-- The addresses of databases that `resolve_paths` of src/manifest.rs gives.
use pipitor.Base.{
  ℕ, true, false, not, ◌||◌, List, ◌∷◌, ◌++◌, ◌==◌, Option, none, some, drop, ◌≡◌, refl, sym, ap,
  ◌∙◌, arith, Bool-cases, inl, inr, ◌⊎◌,
}
use pipitor.Util.Socket.{strip_prefix}
use pipitor.Manifest.Paths.{
  Paths, bytes_eq, starts_with, file, slash, localhost, memory, follows_not, split_path,
  resolve_path, resolve_database_uri, resolve_paths,
}

-- A path from the root on, with one slash at its start.
abbrev pub IsRooted : Paths → List ℕ → Type 0
IsRooted p s =
    (p.is_absolute s ≡ true)
    × ((c : ℕ) × (rest : List ℕ) × (s ≡ b'/' ∷ c ∷ rest) × ((b'/' == c) ≡ false))

module _ (p : Paths) where
  rooted-resolve : (s base : List ℕ) → IsRooted p s → resolve_database_uri p s base ≡ none
  unfolding resolve_database_uri resolve_path starts_with follows_not strip_prefix
  rooted-resolve s base (absolute, (c, rest, e, single)) =
      let at : p.is_absolute (b'/' ∷ c ∷ rest) ≡ true = rw (sym e) absolute in rw (e, at) refl

  starts_with-slash : (c : ℕ) (s : List ℕ) → (b'/' == c) ≡ false → starts_with slash (c ∷ s) ≡ false
  unfolding starts_with strip_prefix
  starts_with-slash c s h = rw (starts_with, strip_prefix, h) refl

  follows_not-some :
      (prefix next s rest : List ℕ)
      → strip_prefix prefix s ≡ some rest
      → follows_not prefix next s ≡ not (starts_with next rest)
  unfolding follows_not
  follows_not-some prefix next s rest e = rw (follows_not, e) refl

  strip_prefix-slash : (s : List ℕ) → strip_prefix (file ++ slash) (file ++ slash ++ s) ≡ some s
  unfolding strip_prefix
  strip_prefix-slash s = refl

  follows_not-slash :
      (c : ℕ) (s : List ℕ)
      → (b'/' == c) ≡ false
      → follows_not (file ++ slash) slash (file ++ slash ++ c ∷ s) ≡ true
  follows_not-slash c s h =
      follows_not-some (file ++ slash) slash (file ++ slash ++ c ∷ s) (c ∷ s)
        (strip_prefix-slash (c ∷ s))
      ∙ ap not (starts_with-slash c s h)

  file-resolve :
      (s q base : List ℕ) → IsRooted p s → resolve_database_uri p (file ++ (s ++ q)) base ≡ none
  unfolding resolve_database_uri
  file-resolve s q base (absolute, (c, rest, e, single)) =
      rw (e, follows_not-slash c (rest ++ q) single) (ground arith)

  resolve_paths-none :
      (uri base : List ℕ)
      → resolve_database_uri p uri base ≡ none
      → resolve_paths p (some uri) base ≡ some uri
  unfolding resolve_paths
  resolve_paths-none uri base e = rw (resolve_paths, e) refl

  -- What an address can be resolved to: nothing new, an address of a file, or its path.
  IsResolution : Option (List ℕ) → Type 0
  IsResolution r =
      (r ≡ none)
      ⊎ ((s : List ℕ) × (q : List ℕ) × IsRooted p s × (r ≡ some (file ++ (s ++ q))))
      ⊎ ((s : List ℕ) × IsRooted p s × (r ≡ some s))

  module _ (base : List ℕ)
      (joined : (path : List ℕ) → p.is_absolute path ≡ false → IsRooted p (p.join base path)) where
    resolve_path-cases :
        (path : List ℕ)
        → (resolve_path p path base ≡ none)
          ⊎ ((s : List ℕ) × IsRooted p s × (resolve_path p path base ≡ some s))
    unfolding resolve_path
    resolve_path-cases path = elim (Bool-cases (p.is_absolute path)) [
      | inl e ↦ inl (rw e refl)
      | inr e ↦ inr (p.join base path, joined path e, rw e refl)
    ]

    resolve_database_uri-IsResolution :
        (uri : List ℕ) → IsResolution (resolve_database_uri p uri base)
    unfolding resolve_database_uri IsResolution
    resolve_database_uri-IsResolution uri =
        elim (Bool-cases (
          starts_with (file ++ slash ++ slash ++ slash) uri
          || starts_with localhost uri
          || follows_not (file ++ slash) slash uri
          || bytes_eq uri memory)) [
            | inl e ↦ inl (rw (resolve_database_uri, e) refl)
            | inr e ↦ elim (Bool-cases (follows_not file (slash ++ slash) uri)) [
              | inl k ↦ elim (resolve_path-cases (split_path (drop 5 uri)).0) [
                | inl h ↦ inl (rw (resolve_database_uri, e, k, h) refl)
                | inr (s, rooted, h) ↦ inr (
                    inl (
                      s,
                      (split_path (drop 5 uri)).1,
                      rooted,
                      rw (resolve_database_uri, e, k, h) refl,
                    ))
              ]
              | inr k ↦ elim (resolve_path-cases uri) [
                | inl h ↦ inl (rw (resolve_database_uri, e, k, h) refl)
                | inr (s, rooted, h) ↦
                    inr (inr (s, rooted, rw (resolve_database_uri, e, k, h) refl))
              ]
            ]
          ]

    -- If the base joined with a relative path is a path from the root with one slash at its start, an
    -- address of a database that was resolved against the base is not changed when it is resolved
    -- against it again.
    resolve_paths-resolve_paths :
        (uri : Option (List ℕ))
        → resolve_paths p (resolve_paths p uri base) base ≡ resolve_paths p uri base
    unfolding resolve_paths IsResolution
    resolve_paths-resolve_paths none = refl
    resolve_paths-resolve_paths (some uri) = elim (resolve_database_uri-IsResolution uri) [
      | inl e ↦ rw e (resolve_paths-none uri base e)
      | inr (inl (s, q, rooted, e)) ↦
          rw e (resolve_paths-none (file ++ (s ++ q)) base (file-resolve s q base rooted))
      | inr (inr (s, rooted, e)) ↦ rw e (resolve_paths-none s base (rooted-resolve s base rooted))
    ]
