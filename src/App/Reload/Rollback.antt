-- ===== src/App/Reload/Rollback.antt =====
-- The application after `replace_manifest`, however it ends.
use pipitor.Base.{
  true, false, List, ◌≡◌, All, Option, none, some, Option-cases, inl, inr, refl, ◌∙◌, arith, subst,
  ap, if◌then◌else◌,
}
use pipitor.Manifest.{Manifest, validate}
use pipitor.Router.{from_manifest}
use pipitor.Websub.Callback.{Library}
use pipitor.Websub.Store.{Db}
use pipitor.Websub.Address.{Uri}
use pipitor.App.Core.{
  Core, invalid, Rows, Pool, Stream, Connection, Try, ok, fail, panic, dropped, ids,
  load_twitter_tokens, gc_twitter_tokens, init_twitter, init_twitter_list,
}
use pipitor.App.Core.Tokens.{All-int_in, is_user, gc_twitter_tokens_lem}
use pipitor.App.Core.Loaded.{Keeps, Extends, Loaded, Keeps-self, load_with-Loaded}
use pipitor.App.Sync.{Task, sync_with, with_rows, sync_websub_subscriptions}
use pipitor.App.Reload.{
  App, Replaced, replaced, rejected, panicked, abandoned, synced, or_return, reconnected, catch,
  rollback, finish, install, opt_eq, with_pool, has_updates, replace_manifest,
}

-- The pool after a roll back.
restored : Option Pool → Pool → Pool
restored none pool = pool
restored (some old) pool = old

module _ {R : Type 0} where
  -- What the `async` block does to a core.
  Caught : Core R → Try (List Task) × App R → Type 0
  Caught c (ok tasks, app) = (app.core.manifest ≡ c.manifest) × (app.core.router ≡ c.router)
  Caught c (fail e, app) = Extends c app.core
  Caught c (panic, app) = Extends c app.core
  Caught c (dropped, app) = Extends c app.core

  or_return-Caught :
      {A : Type 0} (c : Core R) (app : App R) (r : Try A) (f : A → Try (List Task) × App R)
      → Extends c app.core
      → ((a : A) → r ≡ ok a → Caught c (f a))
      → Caught c (or_return app r f)
  unfolding Caught
  or_return-Caught c app (ok a) f h k = k a refl
  or_return-Caught c app (fail e) f h k = h
  or_return-Caught c app panic f h k = h
  or_return-Caught c app dropped f h k = h

  -- A synchronization leaves the manifest and the router.
  Same : Core R → Try (List Task × Core R) → Type 0
  Same c (ok (tasks, c')) = (c'.manifest ≡ c.manifest) × (c'.router ≡ c.router)
  Same c (fail e) = Unit
  Same c panic = Unit
  Same c dropped = Unit

  with_rows-Same :
      (c : Core R) (rows : Rows) (o : Option (List Task × Db)) → Same c (with_rows c rows o)
  unfolding Same
  with_rows-Same c rows none = tt
  with_rows-Same c rows (some p) = (refl, refl)

  sync_with-Same :
      (b : Library) (c : Core R) (websub : Option Uri) (rows : Option Rows)
      → Same c (sync_with b c websub rows)
  unfolding Same
  sync_with-Same b c none rows = (refl, refl)
  sync_with-Same b c (some callback) none = tt
  sync_with-Same b c (some callback) (some rows) = with_rows-Same c rows _

  module _ (b : Library) where
    synced-Caught : (c : Core R) (app : App R) → Extends c app.core → Caught c (synced b app)
    unfolding synced Caught Same sync_websub_subscriptions
    synced-Caught c app h =
        or_return-Caught c app (sync_websub_subscriptions b app.websub app.core)
          (λ (tasks, c'). (ok tasks, record app { core = c' })) h
          (λ (tasks, c') e.
            let same : Same app.core (ok (tasks, c')) =
              subst (Same app.core) e (sync_with-Same b app.core app.websub app.core.pool.rows) in
            (same.0 ∙ h.same_manifest, same.1 ∙ h.same_router))

    reconnected-Caught :
        (connects : Stream → Connection) (c : Core R) (app : App R)
        → Extends c app.core
        → Caught c (reconnected b connects app)
    unfolding reconnected
    reconnected-Caught connects c app h =
        or_return-Caught c app (init_twitter connects app.core)
          (λ stream.
            or_return app (init_twitter_list app.core)
              (λ list. synced b (record app { twitter = stream; twitter_list = list })))
          h
          (λ stream e.
            or_return-Caught c app (init_twitter_list app.core)
              (λ list. synced b (record app { twitter = stream; twitter_list = list })) h
              (λ list k. synced-Caught c (record app { twitter = stream; twitter_list = list }) h))

    catch-Caught :
        (connects : Stream → Connection) (old : Manifest R) (app : App R)
        → Caught app.core (catch b connects old app)
    unfolding catch load_twitter_tokens Loaded
    catch-Caught connects old app =
        or_return-Caught app.core app (load_twitter_tokens app.core)
          (λ c.
            let app' : App R = record app { core = c } in
            if has_updates c.manifest old then reconnected b connects app' else synced b app')
          (record {
            same_manifest = refl;
            same_router = refl;
            same_pool = refl;
            keeps = Keeps-self app.core;
          })
          (λ c e.
            let app' : App R = record app { core = c } in
            let h : Extends app.core c =
              subst (Loaded app.core) e
                (load_with-Loaded app.core app.core.manifest.twitter app.core.pool.rows) in
            elim (has_updates c.manifest old)
              as (λ t. Caught app.core (if t then reconnected b connects app' else synced b app')) [
                | true ↦ reconnected-Caught connects app.core app' h
                | false ↦ synced-Caught app.core app' h
              ])

  -- How `replace_manifest` ends: what it returns, and the application that it leaves.
  unfoldable pub Ends : Manifest R → App R → Replaced R × App R → Type 0
  Ends m app (replaced old tasks, app') =
      (old ≡ app.core.manifest)
      × (app'.core.manifest ≡ m)
      × (app'.core.router ≡ from_manifest m)
      × All (λ u. is_user m u ≡ true) (ids app'.core.twitter_tokens)
  Ends m app (rejected e m', app') = (m' ≡ m) × Extends app.core app'.core
  Ends m app (panicked, app') = Extends app.core app'.core
  Ends m app (abandoned, app') = Extends app.core app'.core

  pub gc-same :
      (c : Core R)
      → ((gc_twitter_tokens c).manifest ≡ c.manifest)
        × All (λ u. is_user c.manifest u ≡ true) (ids (gc_twitter_tokens c).twitter_tokens)
  unfolding gc_twitter_tokens
  gc-same c = (
    elim (Option-cases c.manifest.twitter) [
      | inl e ↦ ground arith
      | inr (config, e) ↦ ground arith
    ],
    All-int_in (is_user c.manifest) (ids (gc_twitter_tokens c).twitter_tokens)
        (λ u k. ground (arith, (gc_twitter_tokens_lem c u).0)),
  )

  rollback-Extends :
      (app app' : App R) (m : Manifest R) (pool : Pool) (old_pool : Option Pool)
      → restored old_pool pool ≡ app.core.pool
      → Extends (record app.core { manifest = m; pool = pool }) app'.core
      → Extends app.core (rollback app.core.manifest old_pool app').core
  unfolding rollback restored Keeps
  rollback-Extends app app' m pool none p h = record {
    same_manifest = refl;
    same_router = h.same_router;
    same_pool = h.same_pool ∙ p;
    keeps = h.keeps;
  }
  rollback-Extends app app' m pool (some old) p h = record {
    same_manifest = refl;
    same_router = h.same_router;
    same_pool = p;
    keeps = h.keeps;
  }

  finish-Ends :
      (app : App R) (m : Manifest R) (pool : Pool) (old_pool : Option Pool)
      (r : Try (List Task) × App R)
      → restored old_pool pool ≡ app.core.pool
      → Caught (record app.core { manifest = m; pool = pool }) r
      → Ends m app (finish app.core.manifest old_pool r)
  unfolding Ends Caught finish
  finish-Ends app m pool old_pool (ok tasks, app') p h = (
    refl,
    (gc-same app'.core).0 ∙ h.0,
    ap from_manifest ((gc-same app'.core).0 ∙ h.0),
    subst
        (λ (n : Manifest R).
          All (λ u. is_user n u ≡ true) (ids (gc_twitter_tokens app'.core).twitter_tokens))
        h.0 (gc-same app'.core).1,
  )
  finish-Ends app m pool old_pool (fail e, app') p h =
      (h.same_manifest, rollback-Extends app app' m pool old_pool p h)
  finish-Ends app m pool old_pool (panic, app') p h = rollback-Extends app app' m pool old_pool p h
  finish-Ends app m pool old_pool (dropped, app') p h =
      rollback-Extends app app' m pool old_pool p h

  install-Ends :
      (b : Library) (connects : Stream → Connection) (m : Manifest R) (pool : Pool)
      (old_pool : Option Pool) (app : App R)
      → restored old_pool pool ≡ app.core.pool
      → Ends m app (install b connects m pool old_pool app)
  unfolding install
  install-Ends b connects m pool old_pool app p =
      let app' : App R = record app { core = record app.core { manifest = m; pool = pool } } in
      finish-Ends app m pool old_pool (catch b connects app.core.manifest app') p
        (catch-Caught b connects app.core.manifest app')

  -- If the manifest is replaced, the old one is returned, the router is that of the new one, and
  -- only its users have tokens. However else the call ends, with an error, by a panic or because
  -- the future is dropped, the application has its old manifest, router and pool and still the
  -- tokens of all users that had one; an error comes with the new manifest.
  pub replace_manifest-Ends :
      (b : Library) (connects : Stream → Connection) (opened : Option Pool) (m : Manifest R)
      (app : App R)
      → Ends m app (replace_manifest b connects opened m app)
  unfolding replace_manifest Ends restored
  replace_manifest-Ends b connects opened m app =
      let unchanged : Extends app.core app.core = record {
        same_manifest = refl;
        same_router = refl;
        same_pool = refl;
        keeps = Keeps-self app.core;
      } in
      elim (validate m)
        as (λ v. Ends m app (elim v [
          | some e ↦ (rejected (invalid e) m, app)
          | none ↦
              with_pool b connects opened m app
                (opt_eq m.database_url app.core.manifest.database_url)
        ])) [
          | some e ↦ (refl, unchanged)
          | none ↦
              elim (opt_eq m.database_url app.core.manifest.database_url)
                as (λ t. Ends m app (with_pool b connects opened m app t)) [
                  | true ↦ install-Ends b connects m app.core.pool none app refl
                  | false ↦ elim opened as (λ o. Ends m app (with_pool b connects o m app false)) [
                    | none ↦ (refl, unchanged)
                    | some pool ↦ install-Ends b connects m pool (some app.core.pool) app refl
                  ]
                ]
        ]
