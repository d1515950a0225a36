-- ===== src/Commands/ListSync.antt =====
-- src/bin/pipitor/twitter_list_sync.rs: the list of Twitter that is brought in line with the topics of
-- the manifest. The requests of a `FuturesUnordered` are taken to end in the order of the users, and
-- the first error ends them. `remote` is the list at Twitter.
use pipitor.Base.{
  ℕ, Bool, true, false, not, ◌&&◌, ◌||◌, List, [], ◌∷◌, ◌==◌, any, retain, All, Option, none, some,
  if◌then◌else◌, ◌≡◌, refl, ap, arith, Bool-cases, inl, inr,
}
use pipitor.Base.Int.{ℤ, int_eq, int_eq_iff}
use pipitor.Base.Ints.{int_in, int_set, without, int_in-retain, int_in-int_set}
use pipitor.Manifest.{Manifest, twitter_topics}
use pipitor.App.Core.{Rows, Token, find_token}

-- How a request to add a user ends: with success, with an error of Twitter's and its codes, or with
-- another error.
pub data Reply : Type 0 where
  success : Reply
  twitter_error : List ℕ → Reply
  other_error : Reply

-- Twitter: whether a removal succeeds, how an addition ends, and the codes
-- `YOU_ARENT_ALLOWED_TO_ADD_MEMBERS_TO_THIS_LIST` and `CANNOT_FIND_SPECIFIED_USER`.
pub record Server : Type 0 where
  pub destroy : ℤ → Bool
  pub create : ℤ → Reply
  pub not_allowed : ℕ
  pub cannot_find : ℕ

pub data Failed : Type 0 where
  missing_list no_pool not_logged_in no_members not_removed not_added : Failed

pub data Synced : Type 0 where
  -- Whether anything was asked for.
  synced : Bool → Synced
  failed : Failed → Synced

-- `a.difference(&b)`.
abbrev pub difference : List ℤ → List ℤ → List ℤ
difference a b = retain (λ u. not (int_in u b)) a

abbrev pub is_nil {ℓ} : {A : Type ℓ} → List A → Bool
is_nil [] = true
is_nil (x ∷ xs) = false

abbrev pub is_success : Reply → Bool
is_success success = true
is_success (twitter_error codes) = false
is_success other_error = false

module _ (s : Server) where
  abbrev pub skipped : ℕ → Bool
  skipped code = code == s.not_allowed || code == s.cannot_find

  -- Whether an addition counts as done: some errors of Twitter are skipped.
  unfoldable pub is_ok : Reply → Bool
  is_ok success = true
  is_ok (twitter_error codes) = any skipped codes
  is_ok other_error = false

  -- The removals, whether they all succeed, and the list.
  unfoldable pub destroy_each : List ℤ → List ℤ → Bool × List ℤ
  destroy_each [] remote = (true, remote)
  destroy_each (u ∷ us) remote =
      if s.destroy u then destroy_each us (without u remote) else (false, remote)

  abbrev pub added : ℤ → List ℤ → List ℤ
  added u remote = if is_success (s.create u) then u ∷ remote else remote

  unfoldable pub create_each : List ℤ → List ℤ → Bool × List ℤ
  unfolding is_ok
  create_each [] remote = (true, remote)
  create_each (u ∷ us) remote =
      if is_ok (s.create u) then create_each us (added u remote) else (false, remote)

  abbrev after_create : Bool → Bool × List ℤ → Synced × List ℤ
  after_create updated (true, remote) = (synced updated, remote)
  after_create updated (false, remote) = (failed not_added, remote)

  -- `list` is what the request for the members gave, before the additions.
  unfoldable pub after_destroy : List ℤ → List ℤ → Bool × List ℤ → Synced × List ℤ
  unfolding create_each
  after_destroy users list (false, remote) = (failed not_removed, remote)
  after_destroy users list (true, remote) =
      after_create (not (is_nil (difference list users)) || not (is_nil (difference users list)))
        (create_each (difference users list) remote)

  -- From where both sets are known.
  unfoldable pub sync : List ℤ → List ℤ → List ℤ → Synced × List ℤ
  unfolding destroy_each after_destroy
  sync users list remote = after_destroy users list (destroy_each (difference list users) remote)

  abbrev pub find_row : ℤ → Option Rows → Option (Option Token)
  find_row user none = none
  find_row user (some rows) = some (find_token user rows.twitter_tokens)

  -- `main`; the members that the request gives are those of `remote`, unless it fails.
  unfoldable pub main : {R : Type 0} → Manifest R → Option Rows → Bool → List ℤ → Synced × List ℤ
  unfolding sync
  main m rows answers remote = elim m.twitter [
    | none ↦ (failed missing_list, remote)
    | some config ↦ elim config.list [
      | none ↦ (failed missing_list, remote)
      | some list ↦ elim (find_row config.user rows) [
        | none ↦ (failed no_pool, remote)
        | some none ↦ (failed not_logged_in, remote)
        | some (some token) ↦
            if answers
            then sync (int_set (twitter_topics m)) (int_set remote) remote
            else (failed no_members, remote)
      ]
    ]
  ]

module _ (s : Server) (a : ℤ) where
  destroy_each_lem :
      (us remote : List ℤ)
      → All (λ u. s.destroy u ≡ true) us
      → (r : List ℤ) × (destroy_each s us remote ≡ (true, r))
        × (int_in a r ≡ (int_in a remote && not (int_in a us)))
  unfolding destroy_each
  destroy_each_lem [] remote h = (remote, refl, ground arith)
  destroy_each_lem (u ∷ us) remote (ok, h) =
      let (r, run, members) = destroy_each_lem us (without u remote) h in
      (
        r,
        rw ok run,
        ground (
          arith,
          members,
          int_in-retain a (λ v. not (int_eq v u)) remote,
          int_eq_iff a u,
          int_eq_iff u a,
        ),
      )

  int_in-added :
      (u : ℤ) (remote : List ℤ)
      → int_in a (added s u remote) ≡ (int_in a remote || int_eq u a && is_success (s.create a))
  int_in-added u remote = elim (Bool-cases (int_eq u a)) [
    | inl e ↦
        let same : is_success (s.create u) ≡ is_success (s.create a) =
          ap (λ x. is_success (s.create x)) ((int_eq_iff u a).0 e) in
        rw (same, e)
          (elim (Bool-cases (is_success (s.create a))) [
            | inl y ↦ rw y (ground (arith, e))
            | inr n ↦ rw n (ground arith)
          ])
    | inr e ↦ elim (Bool-cases (is_success (s.create u))) [
      | inl y ↦ rw (e, y) (ground (arith, e))
      | inr n ↦ rw (e, n) (ground arith)
    ]
  ]

  create_each_lem :
      (us remote : List ℤ)
      → All (λ u. is_ok s (s.create u) ≡ true) us
      → (r : List ℤ) × (create_each s us remote ≡ (true, r))
        × (int_in a r ≡ (int_in a remote || int_in a us && is_success (s.create a)))
  unfolding create_each
  create_each_lem [] remote h = (remote, refl, ground arith)
  create_each_lem (u ∷ us) remote (ok, h) =
      let (r, run, members) = create_each_lem us (added s u remote) h in
      (r, rw ok run, ground (arith, members, int_in-added u remote))

abbrev pub is_changed : List ℤ → List ℤ → Bool
is_changed users list = not (is_nil (difference list users)) || not (is_nil (difference users list))

-- If no removal fails and no addition does but for the errors that are skipped, the list has then the
-- users of the manifest and nobody else, less those whose addition was skipped; whoever stays is not
-- asked for again, and the answer is whether anything was asked for.
pub sync_lem :
    (s : Server) (users remote : List ℤ) (a : ℤ)
    → All (λ u. s.destroy u ≡ true) (difference (int_set remote) users)
    → All (λ u. is_ok s (s.create u) ≡ true) (difference users (int_set remote))
    → (r : List ℤ) × (sync s users (int_set remote) remote
        ≡ (synced (is_changed users (int_set remote)), r))
      × (int_in a r ≡ (int_in a users && (int_in a remote || is_success (s.create a))))
unfolding sync after_destroy
sync_lem s users remote a removed added_ok =
    let list : List ℤ = int_set remote in
    let (r, run, gone) = destroy_each_lem s a (difference list users) remote removed in
    let (r', run', here) = create_each_lem s a (difference users list) r added_ok in
    (
      r',
      rw (run, run') refl,
      ground (
        arith,
        here,
        gone,
        int_in-retain a (λ u. not (int_in u users)) list,
        int_in-retain a (λ u. not (int_in u list)) users,
        int_in-int_set a remote,
      ),
    )
