-- ===== src/App/Core/Tokens.antt =====
-- The tokens of the users after they are loaded, and after the unused ones are dropped.
use pipitor.Base.{
  Bool, true, false, not, ◌&&◌, ◌||◌, List, [], ◌∷◌, ◌≡◌, ◌↔◌, ◌⊎◌, retain, length, none, some, All,
  ◌==◌, ==_iff, if◌then◌else◌, Bool-cases, Option-cases, inl, inr, refl, sym, arith, ◌∙◌, subst,
  ap₂,
}
use pipitor.Base.Int.{ℤ, int_eq, int_eq_iff, int_eq_refl}
use pipitor.Base.Ints.{
  int_in, int_set, int_in-int_set, int_set-UniqueInts, int_in-retain, UniqueInts, length-subset,
  subset-full,
}
use pipitor.Manifest.{Manifest, Twitter}
use pipitor.App.Core.{
  Core, Token, Rows, Try, ok, fail, unauthorized, ids, has_token, find_token, extend, users,
  unauthed_users, load_rows, load_with, load_twitter_tokens, gc_twitter_tokens,
}

ids-retain : (p : ℤ → Bool) (ts : List Token) → ids (retain (λ t. p t.id) ts) ≡ retain p (ids ts)
ids-retain p [] = refl
ids-retain p (t ∷ ts) = ground (arith, ids-retain p ts)

has_token-retain :
    (u : ℤ) (p : ℤ → Bool) (ts : List Token)
    → has_token u (retain (λ t. p t.id) ts) ≡ (p u && has_token u ts)
has_token-retain u p ts = rw (ids-retain p ts, int_in-retain u p (ids ts))

length-ids : (ts : List Token) → length (ids ts) ≡ length ts
length-ids [] = refl
length-ids (t ∷ ts) = omega (arith, length-ids ts)

-- A user has a token after an extension exactly if it had one or the extension brings one.
pub has_token-extend :
    (u : ℤ) (tokens new : List Token)
    → has_token u (extend tokens new) ≡ (has_token u new || has_token u tokens)
has_token-extend u tokens [] = refl
has_token-extend u tokens (t ∷ ts) = ground (
  arith,
  has_token-extend u (t ∷ retain (λ v. not (int_eq v.id t.id)) tokens) ts,
  has_token-retain u (λ i. not (int_eq i t.id)) tokens,
  int_eq_iff t.id u,
  int_eq_iff u t.id,
)

retain-UniqueInts : (p : ℤ → Bool) (xs : List ℤ) → UniqueInts xs → UniqueInts (retain p xs)
retain-UniqueInts p [] u = tt
retain-UniqueInts p (x ∷ xs) u = ground (arith, retain-UniqueInts p xs u.1, int_in-retain x p xs)

pub All-int_in :
    (p : ℤ → Bool) (xs : List ℤ)
    → ((a : ℤ) → int_in a xs ≡ true → p a ≡ true)
    → All (λ x. p x ≡ true) xs
All-int_in p [] h = tt
All-int_in p (x ∷ xs) h =
    (h x (ground (arith, int_eq_refl x)), All-int_in p xs (λ a k. h a (ground arith)))

pub int_in-All :
    (P : ℤ → Bool) (xs : List ℤ)
    → All (λ x. P x ≡ true) xs
    → (a : ℤ) → int_in a xs ≡ true
    → P a ≡ true
int_in-All P [] h a k = ground arith
int_in-All P (x ∷ xs) h a k = elim (Bool-cases (int_eq x a)) [
  | inl e ↦ subst (λ (z : ℤ). P z ≡ true) ((int_eq_iff x a).0 e) h.0
  | inr e ↦ int_in-All P xs h.1 a (ground arith)
]

-- Of distinct rows with their ids in `wanted`, there are as many as `wanted` has entries exactly
-- if every entry has a row.
count_iff :
    (wanted : List ℤ) (rows : List Token)
    → UniqueInts wanted
    → UniqueInts (ids rows)
    → let found = retain (λ t. int_in t.id wanted) rows in
      ((length wanted == length found) ≡ true)
      ↔ ((u : ℤ) → int_in u wanted ≡ true → has_token u rows ≡ true)
count_iff wanted rows uw ur =
    let found = retain (λ t. int_in t.id wanted) rows in
    let found_in : (u : ℤ) → has_token u found ≡ (int_in u wanted && has_token u rows) =
      λ u. has_token-retain u (λ i. int_in i wanted) rows in
    let ud : UniqueInts (ids found) =
      rw (ids-retain (λ i. int_in i wanted) rows)
        (retain-UniqueInts (λ i. int_in i wanted) (ids rows) ur) in
    let inside : All (λ x. int_in x wanted ≡ true) (ids found) =
      All-int_in (λ x. int_in x wanted) (ids found) (λ a k. ground (arith, found_in a)) in
    (
      λ e u k.
          let full =
            subset-full (ids found) wanted ud inside
              ((==_iff (length wanted) (length found)).0 e ∙ sym (length-ids found)) u k in
          ground (arith, found_in u),
      λ every.
          let less = length-subset (ids found) wanted ud inside in
          let more = length-subset wanted (ids found) uw (
            All-int_in (λ x. int_in x (ids found)) wanted
              (λ a k. ground (arith, found_in a, every a k))) in
          ground (arith, length-ids found),
    )

find_token-retain :
    (u : ℤ) (p : ℤ → Bool) (ts : List Token)
    → find_token u (retain (λ t. p t.id) ts) ≡ (if p u then find_token u ts else none)
find_token-retain u p [] = ground arith
find_token-retain u p (t ∷ ts) = ground (arith, find_token-retain u p ts, int_eq_iff t.id u)

module _ {R : Type 0} where
  in-unauthed_users :
      (c : Core R) (config : Twitter) (u : ℤ)
      → int_in u (unauthed_users c config)
        ≡ (not (has_token u c.twitter_tokens) && int_in u (users c.manifest config))
  unfolding unauthed_users
  in-unauthed_users c config u =
      int_in-int_set u (retain (λ v. not (has_token v c.twitter_tokens)) (users c.manifest config))
      ∙ int_in-retain u (λ v. not (has_token v c.twitter_tokens)) (users c.manifest config)

  unauthed-UniqueInts : (c : Core R) (config : Twitter) → UniqueInts (unauthed_users c config)
  unfolding unauthed_users
  unauthed-UniqueInts c config =
      int_set-UniqueInts
        (retain (λ u. not (has_token u c.twitter_tokens)) (users c.manifest config))

  -- What a core has after tokens are loaded for a manifest's users: all of them have a token, the
  -- users with a token keep one, and nothing else is changed.
  pub record Loads (config : Twitter) (c c' : Core R) : Type 0 where
    pub same_manifest : c'.manifest ≡ c.manifest
    pub same_router : c'.router ≡ c.router
    pub same_pool : c'.pool ≡ c.pool
    pub authorized : All (λ u. has_token u c'.twitter_tokens ≡ true) (users c.manifest config)
    pub kept : All (λ u. has_token u c'.twitter_tokens ≡ true) (ids c.twitter_tokens)

  -- Every user of the manifest has a token, in memory or in the table.
  pub HasTokens : Core R → Twitter → List Token → Type 0
  HasTokens c config rows =
      All (λ u. (has_token u c.twitter_tokens || has_token u rows) ≡ true) (users c.manifest config)

  -- How the tokens are loaded.
  unfoldable pub LoadsAs : Core R → Twitter → List Token → Try (Core R) → Type 0
  LoadsAs c config rows result =
      ((c' : Core R) × (result ≡ ok c') × Loads config c c' × HasTokens c config rows)
      ⊎ ((result ≡ fail unauthorized) × ¬ HasTokens c config rows)

  load_rows-cases :
      (c : Core R) (config : Twitter) (rows : List Token)
      → UniqueInts (ids rows)
      → LoadsAs c config rows (load_rows c config rows)
  unfolding load_rows LoadsAs HasTokens
  load_rows-cases c config rows uniq =
      let unauthed = unauthed_users c config in
      let found = retain (λ t. int_in t.id unauthed) rows in
      let members = in-unauthed_users c config in
      let all_found = count_iff unauthed rows (unauthed-UniqueInts c config) uniq in
      let found_in : (u : ℤ) → has_token u found ≡ (int_in u unauthed && has_token u rows) =
        λ u. has_token-retain u (λ i. int_in i unauthed) rows in
      elim (Bool-cases (length unauthed == length found)) [
        | inl e ↦ inl (
          record c { twitter_tokens = extend c.twitter_tokens found },
          rw e,
          record {
            same_manifest = refl;
            same_router = refl;
            same_pool = refl;
            authorized =
                All-int_in (λ u. has_token u (extend c.twitter_tokens found))
                  (users c.manifest config)
                  (λ u k. ground (
                    arith,
                    has_token-extend u c.twitter_tokens found,
                    found_in u,
                    members u,
                    all_found.0 e u,
                  ));
            kept =
                All-int_in (λ u. has_token u (extend c.twitter_tokens found)) (ids c.twitter_tokens)
                  (λ u k. ground (arith, has_token-extend u c.twitter_tokens found));
          },
          All-int_in (λ u. has_token u c.twitter_tokens || has_token u rows)
              (users c.manifest config) (λ u k. ground (arith, members u, all_found.0 e u)),
        )
        | inr e ↦ inr (
          rw e,
          λ every. ground (
            arith,
            all_found.1 (λ u k. ground (
              arith,
              members u,
              int_in-All (λ v. has_token v c.twitter_tokens || has_token v rows)
                  (users c.manifest config) every u,
            )),
          ),
        )
      ]

  -- With credentials in the manifest, a database that answers and distinct ids in its table of
  -- tokens, the tokens are loaded exactly if every user of the manifest has one in memory or in the
  -- table. Then every such user has a token in memory, no user loses one, and the manifest, the
  -- router and the pool are the same; otherwise the error is that users are not authorized.
  pub load_twitter_tokens_lem :
      (c : Core R) (config : Twitter) (rows : Rows)
      → c.manifest.twitter ≡ some config
      → c.pool.rows ≡ some rows
      → UniqueInts (ids rows.twitter_tokens)
      → LoadsAs c config rows.twitter_tokens (load_twitter_tokens c)
  unfolding load_twitter_tokens
  load_twitter_tokens_lem c config rows m p uniq =
      subst (LoadsAs c config rows.twitter_tokens) (sym (ap₂ (load_with c) m p))
        (load_rows-cases c config rows.twitter_tokens uniq)

  -- Whether the manifest has the user, as its own or as an outbox.
  unfoldable pub is_user : Manifest R → ℤ → Bool
  is_user m u = elim m.twitter [ none ↦ false | some config ↦ int_in u (users m config) ]

  -- After the collection exactly the users of the manifest keep their tokens, and the same ones;
  -- without credentials in the manifest no token is left.
  pub gc_twitter_tokens_lem :
      (c : Core R) (u : ℤ)
      → (has_token u (gc_twitter_tokens c).twitter_tokens
          ≡ (is_user c.manifest u && has_token u c.twitter_tokens))
        × (find_token u (gc_twitter_tokens c).twitter_tokens
            ≡ (if is_user c.manifest u then find_token u c.twitter_tokens else none))
  unfolding gc_twitter_tokens is_user
  gc_twitter_tokens_lem c u = elim (Option-cases c.manifest.twitter) [
    | inl e ↦ ground arith
    | inr (config, e) ↦
        let p : ℤ → Bool = λ i. int_in i (int_set (users c.manifest config)) in
        ground (
          arith,
          has_token-retain u p c.twitter_tokens,
          find_token-retain u p c.twitter_tokens,
          int_in-int_set u (users c.manifest config),
        )
  ]
