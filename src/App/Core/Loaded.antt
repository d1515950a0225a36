-- ===== src/App/Core/Loaded.antt =====
-- What loading tokens leaves of the state that the application shares.
use pipitor.Base.{
  [], Option-cases, inl, inr, List, ◌≡◌, retain, All, Option, none, some, refl, arith, true,
}
use pipitor.Base.Ints.{int_in}
use pipitor.Manifest.{Twitter, Manifest, validate}
use pipitor.Router.{from_manifest}
use pipitor.App.Core.{
  Pool, Error, no_pool, no_connection, or_fail, bind-ok, new, load_twitter_tokens, Core, Token,
  Rows, Try, ok, fail, panic, dropped, ids, has_token, unauthed_users, extend, load_rows, load_with,
}
use pipitor.App.Core.Tokens.{has_token-extend, All-int_in}

or_fail-ok : {A : Type 0} (e : Error) (o : Option A) {a : A} → or_fail e o ≡ ok a → o ≡ some a
or_fail-ok e none h = absurd (cc h)
or_fail-ok e (some a) h = cc h

module _ {R : Type 0} where
  unfoldable pub Keeps : Core R → Core R → Type 0
  Keeps c c' = All (λ u. has_token u c'.twitter_tokens ≡ true) (ids c.twitter_tokens)

  -- A core with the same parts, but for tokens that came in addition.
  pub record Extends (c c' : Core R) : Type 0 where
    pub same_manifest : c'.manifest ≡ c.manifest
    pub same_router : c'.router ≡ c.router
    pub same_pool : c'.pool ≡ c.pool
    pub keeps : Keeps c c'

  pub Keeps-self : (c : Core R) → Keeps c c
  unfolding Keeps
  Keeps-self c = All-int_in (λ u. has_token u c.twitter_tokens) (ids c.twitter_tokens) (λ a k. k)

  unfoldable pub Loaded : Core R → Try (Core R) → Type 0
  Loaded c (ok c') = Extends c c'
  Loaded c (fail e) = Unit
  Loaded c panic = Unit
  Loaded c dropped = Unit

  load_rows-Loaded :
      (c : Core R) (config : Twitter) (rows : List Token) → Loaded c (load_rows c config rows)
  unfolding load_rows Loaded Keeps
  load_rows-Loaded c config rows =
      let found = retain (λ t. int_in t.id (unauthed_users c config)) rows in
      let extended : Loaded c (ok (record c { twitter_tokens = extend c.twitter_tokens found })) =
        record {
          same_manifest = refl;
          same_router = refl;
          same_pool = refl;
          keeps =
              All-int_in (λ u. has_token u (extend c.twitter_tokens found)) (ids c.twitter_tokens)
                (λ a k. ground (arith, has_token-extend a c.twitter_tokens found));
        } in
      ground (arith, extended)

  pub load_with-Loaded :
      (c : Core R) (config : Option Twitter) (rows : Option Rows)
      → Loaded c (load_with c config rows)
  unfolding Loaded
  load_with-Loaded c none rows = record {
    same_manifest = refl;
    same_router = refl;
    same_pool = refl;
    keeps = Keeps-self c;
  }
  load_with-Loaded c (some config) none = tt
  load_with-Loaded c (some config) (some rows) = load_rows-Loaded c config rows.twitter_tokens

  -- The core before its tokens are loaded.
  abbrev pub without_tokens : Manifest R → Pool → Core R
  without_tokens m p = record {
    manifest = m;
    router = from_manifest m;
    pool = p;
    twitter_tokens = [];
  }

  -- A core that is made has a manifest that validates and loads its tokens from its pool.
  pub new-ok :
      (pool : Option Pool) (m : Manifest R) (c : Core R)
      → new pool m ≡ ok c
      → (validate m ≡ none)
        × ((p : Pool) × (pool ≡ some p) × (load_twitter_tokens (without_tokens m p) ≡ ok c))
  unfolding new load_twitter_tokens
  new-ok pool m c h = elim (Option-cases (validate m)) [
    | inr (e, k) ↦ absurd (cc (rw (new, k) at h))
    | inl k ↦
        let (p, e0, h0) = bind-ok (or_fail no_pool pool) _ (rw (new, k) at h) in
        let (rows, e1, h1) = bind-ok (or_fail no_connection p.rows) _ h0 in
        (k, (p, or_fail-ok no_pool pool e0, h1))
  ]
