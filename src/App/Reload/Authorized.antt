-- ===== src/App/Reload/Authorized.antt =====
-- The tokens and the router of an application over its reloads.
use pipitor.Base.{
  true, false, List, ◌≡◌, Option, none, some, Option-cases, inl, inr, refl, sym, ◌∙◌, subst, ap,
  Bool-cases,
}
use pipitor.Base.Int.{ℤ}
use pipitor.Base.Ints.{UniqueInts}
use pipitor.Manifest.{Manifest, validate}
use pipitor.Router.{from_manifest}
use pipitor.Websub.Callback.{Library}
use pipitor.Websub.Store.{Db}
use pipitor.Websub.Address.{Uri}
use pipitor.App.Core.{
  invalid, Core, Rows, Pool, Stream, Connection, Try, ok, fail, panic, dropped, ids, has_token,
  users, load_twitter_tokens, gc_twitter_tokens, init_twitter, init_twitter_list,
}
use pipitor.App.Core.Tokens.{
  LoadsAs, load_twitter_tokens_lem, is_user, gc_twitter_tokens_lem, int_in-All,
}
use pipitor.App.Core.Loaded.{Keeps, Extends, Loaded, load_with-Loaded}
use pipitor.App.Sync.{Task, sync_with, with_rows, sync_websub_subscriptions}
use pipitor.App.Reload.{
  App, Replaced, replaced, rejected, panicked, abandoned, synced, or_return, reconnected, catch,
  finish, install, opt_eq, with_pool, has_updates, replace_manifest,
}
use pipitor.App.Reload.Rollback.{Ends, replace_manifest-Ends, gc-same}

-- The primary key of the table of tokens.
abbrev pub HasKey : Pool → Type 0
HasKey p = (rows : Rows) → p.rows ≡ some rows → UniqueInts (ids rows.twitter_tokens)

module _ {R : Type 0} where
  -- Each user of the manifest has a token.
  abbrev pub IsAuthorized : Core R → Type 0
  IsAuthorized c = (u : ℤ) → is_user c.manifest u ≡ true → has_token u c.twitter_tokens ≡ true

  abbrev pub IsOwn : Core R → Type 0
  IsOwn c = (c.router ≡ from_manifest c.manifest) × IsAuthorized c

  or_return-ok :
      {A : Type 0} (app app' : App R) (r : Try A) (f : A → Try (List Task) × App R) (ts : List Task)
      → or_return app r f ≡ (ok ts, app')
      → (a : A) × (r ≡ ok a) × (f a ≡ (ok ts, app'))
  or_return-ok app app' (ok a) f ts h = (a, refl, h)
  or_return-ok app app' (fail e) f ts h = absurd (cc (ap (λ x. x.0) h))
  or_return-ok app app' panic f ts h = absurd (cc (ap (λ x. x.0) h))
  or_return-ok app app' dropped f ts h = absurd (cc (ap (λ x. x.0) h))

  -- A core with the same manifest and the same tokens.
  abbrev pub Same : Core R → Core R → Type 0
  Same c c' = (c'.manifest ≡ c.manifest) × (c'.twitter_tokens ≡ c.twitter_tokens)

  unfoldable pub SyncSame : Core R → Try (List Task × Core R) → Type 0
  SyncSame c (ok (tasks, c')) = Same c c'
  SyncSame c (fail e) = Unit
  SyncSame c panic = Unit
  SyncSame c dropped = Unit

  with_rows-SyncSame :
      (c : Core R) (rows : Rows) (o : Option (List Task × Db)) → SyncSame c (with_rows c rows o)
  unfolding SyncSame
  with_rows-SyncSame c rows none = tt
  with_rows-SyncSame c rows (some p) = (refl, refl)

  module _ (b : Library) where
    pub sync_with-SyncSame :
        (c : Core R) (websub : Option Uri) (rows : Option Rows)
        → SyncSame c (sync_with b c websub rows)
    unfolding SyncSame
    sync_with-SyncSame c none rows = (refl, refl)
    sync_with-SyncSame c (some callback) none = tt
    sync_with-SyncSame c (some callback) (some rows) = with_rows-SyncSame c rows _

    synced-Same :
        (app app' : App R) (ts : List Task) → synced b app ≡ (ok ts, app') → Same app.core app'.core
    unfolding synced SyncSame sync_websub_subscriptions
    synced-Same app app' ts h =
        let ((tasks, c), e, left) =
          or_return-ok app app' (sync_websub_subscriptions b app.websub app.core)
            (λ (tasks, c). (ok tasks, record app { core = c })) ts h in
        let same : Same app.core c =
          subst (SyncSame app.core) e (sync_with-SyncSame app.core app.websub app.core.pool.rows) in
        subst (λ (x : App R). Same app.core x.core) (ap (λ x. x.1) left) same

    reconnected-Same :
        (connects : Stream → Connection) (app app' : App R) (ts : List Task)
        → reconnected b connects app ≡ (ok ts, app')
        → Same app.core app'.core
    unfolding reconnected
    reconnected-Same connects app app' ts h =
        let (stream, _, h1) = or_return-ok app app' (init_twitter connects app.core) _ ts h in
        let (list, _, h2) = or_return-ok app app' (init_twitter_list app.core) _ ts h1 in
        synced-Same (record app { twitter = stream; twitter_list = list }) app' ts h2

    catch-Same :
        (connects : Stream → Connection) (old : Manifest R) (app app' : App R) (ts : List Task)
        → catch b connects old app ≡ (ok ts, app')
        → (c : Core R) × (load_twitter_tokens app.core ≡ ok c) × Same c app'.core
    unfolding catch
    catch-Same connects old app app' ts h =
        let (c, e, h1) = or_return-ok app app' (load_twitter_tokens app.core) _ ts h in
        (
          c,
          e,
          elim (Bool-cases (has_updates c.manifest old)) [
            | inl y ↦ reconnected-Same connects (record app { core = c }) app' ts (rw y at h1)
            | inr n ↦ synced-Same (record app { core = c }) app' ts (rw n at h1)
          ],
        )

  pub loaded-IsAuthorized :
      (c c' : Core R) → load_twitter_tokens c ≡ ok c' → HasKey c.pool → IsAuthorized c'
  unfolding load_twitter_tokens Loaded LoadsAs is_user
  loaded-IsAuthorized c c' h key u k =
      let loaded : Extends c c' =
        subst (Loaded c) h (load_with-Loaded c c.manifest.twitter c.pool.rows) in
      let user : is_user c.manifest u ≡ true =
        ap (λ m. is_user m u) (sym loaded.same_manifest) ∙ k in
      elim (Option-cases c.manifest.twitter) [
        | inl none_there ↦ absurd (cc (rw (is_user, none_there) at user))
        | inr (config, e) ↦ elim (Option-cases c.pool.rows) [
          | inl n ↦ absurd (cc (rw (e, n) at h))
          | inr (rows, r) ↦ elim (load_twitter_tokens_lem c config rows e r (key rows r)) [
            | inr (failed, _) ↦ absurd (cc (sym failed ∙ h))
            | inl (c'', made, loads, _) ↦
                let same : c'' ≡ c' = cc (sym made ∙ h) in
                subst (λ (x : Core R). has_token u x.twitter_tokens ≡ true) same
                  (int_in-All (λ v. has_token v c''.twitter_tokens) (users c.manifest config)
                    loads.authorized u (rw (is_user, e) at user))
          ]
        ]
      ]

  -- The collection, and the router that is made anew.
  gc-IsOwn :
      (c : Core R)
      → IsAuthorized c
      → IsOwn
          (record (gc_twitter_tokens c) { router = from_manifest (gc_twitter_tokens c).manifest })
  gc-IsOwn c h = (
    refl,
    λ u k.
        let user : is_user c.manifest u ≡ true = ap (λ m. is_user m u) (sym (gc-same c).0) ∙ k in
        (gc_twitter_tokens_lem c u).0 ∙ rw (user, h u user) refl,
  )

  finish-IsOwn :
      (old : Manifest R) (old_pool : Option Pool) (r : Try (List Task) × App R)
      → ((ts : List Task) (app : App R) → r ≡ (ok ts, app) → IsAuthorized app.core)
      → (m : Manifest R) (ts : List Task) → (finish old old_pool r).0 ≡ replaced m ts
      → IsOwn (finish old old_pool r).1.core
  unfolding finish
  finish-IsOwn old old_pool (ok tasks, app) h m ts e = gc-IsOwn app.core (h tasks app refl)
  finish-IsOwn old old_pool (fail x, app) h m ts e = absurd (cc e)
  finish-IsOwn old old_pool (panic, app) h m ts e = absurd (cc e)
  finish-IsOwn old old_pool (dropped, app) h m ts e = absurd (cc e)

  module _ (b : Library) (connects : Stream → Connection) where
    install-IsOwn :
        (m : Manifest R) (pool : Pool) (old_pool : Option Pool) (app : App R)
        → HasKey pool
        → (old : Manifest R) (ts : List Task)
        → (install b connects m pool old_pool app).0 ≡ replaced old ts
        → IsOwn (install b connects m pool old_pool app).1.core
    unfolding install
    install-IsOwn m pool old_pool app key =
        let app1 : App R = record app { core = record app.core { manifest = m; pool = pool } } in
        finish-IsOwn app.core.manifest old_pool (catch b connects app.core.manifest app1)
          (λ ts app' e u k.
            let (c, loads, same) = catch-Same b connects app.core.manifest app1 app' ts e in
            ap (λ tokens. has_token u tokens) same.1
            ∙ loaded-IsAuthorized app1.core c loads key u (ap (λ x. is_user x u) (sym same.0) ∙ k))

    replaced-IsOwn :
        (opened : Option Pool) (m : Manifest R) (app : App R)
        → HasKey app.core.pool
        → ((pool : Pool) → opened ≡ some pool → HasKey pool)
        → (old : Manifest R) (ts : List Task)
        → (replace_manifest b connects opened m app).0 ≡ replaced old ts
        → IsOwn (replace_manifest b connects opened m app).1.core
    unfolding replace_manifest
    replaced-IsOwn opened m app key key' old ts =
        let Owns : Replaced R × App R → Type 0 = λ r. r.0 ≡ replaced old ts → IsOwn r.1.core in
        elim (validate m)
          as (λ v. Owns (elim v [
            | some e ↦ (rejected (invalid e) m, app)
            | none ↦
                with_pool b connects opened m app
                  (opt_eq m.database_url app.core.manifest.database_url)
          ])) [
            | some e ↦ λ h. absurd (cc h)
            | none ↦
                elim (opt_eq m.database_url app.core.manifest.database_url)
                  as (λ t. Owns (with_pool b connects opened m app t)) [
                    | true ↦ install-IsOwn m app.core.pool none app key old ts
                    | false ↦ elim (Option-cases opened) [
                      | inl n ↦ rw n (λ h. absurd (cc h))
                      | inr (pool, e) ↦
                          rw e (install-IsOwn m pool (some app.core.pool) app (key' pool e) old ts)
                    ]
                  ]
          ]

    -- What an application keeps that does not get the new manifest.
    kept-IsOwn : (c c' : Core R) → Extends c c' → IsOwn c → IsOwn c'
    unfolding Keeps
    kept-IsOwn c c' h (router, authorized) = (
      h.same_router ∙ router ∙ ap from_manifest (sym h.same_manifest),
      λ u k.
          int_in-All (λ v. has_token v c'.twitter_tokens) (ids c.twitter_tokens) h.keeps u
            (authorized u (ap (λ m. is_user m u) (sym h.same_manifest) ∙ k)),
    )

    Ends-IsOwn :
        (m : Manifest R) (app : App R) (r : Replaced R × App R)
        → Ends m app r
        → ((old : Manifest R) (ts : List Task) → r.0 ≡ replaced old ts → IsOwn r.1.core)
        → IsOwn app.core
        → IsOwn r.1.core
    unfolding Ends
    Ends-IsOwn m app (replaced old ts, app') e h own = h old ts refl
    Ends-IsOwn m app (rejected x m', app') e h own = kept-IsOwn app.core app'.core e.1 own
    Ends-IsOwn m app (panicked, app') e h own = kept-IsOwn app.core app'.core e own
    Ends-IsOwn m app (abandoned, app') e h own = kept-IsOwn app.core app'.core e own

    -- However a call ends, the router is that of the manifest, and each user of it has a token, if this
    -- was so before.
    pub replace_manifest-IsOwn :
        (opened : Option Pool) (m : Manifest R) (app : App R)
        → HasKey app.core.pool
        → ((pool : Pool) → opened ≡ some pool → HasKey pool)
        → IsOwn app.core
        → IsOwn (replace_manifest b connects opened m app).1.core
    replace_manifest-IsOwn opened m app key key' own =
        Ends-IsOwn m app (replace_manifest b connects opened m app)
          (replace_manifest-Ends b connects opened m app) (replaced-IsOwn opened m app key key') own
