-- ===== src/App/Start/Started.antt =====
-- The application that `with_http_client` of src/app.rs makes.
use pipitor.Base.{
  String, List, Option, none, some, Option-cases, inl, inr, ◌≡◌, refl, ap, subst, ◌∙◌,
}
use pipitor.Manifest.{Manifest, validate, is_some}
use pipitor.Router.{from_manifest}
use pipitor.Websub.Callback.{Library}
use pipitor.Websub.Address.{Uri, prepare_callback_prefix}
use pipitor.Websub.Store.{Db}
use pipitor.Websub.Service.{remove_dangling_subscriptions}
use pipitor.App.Core.{
  ok-injective, Core, Pool, Rows, Stream, Connection, ok, bind-ok, new, unwrap, load_twitter_tokens,
  init_twitter, init_twitter_list,
}
use pipitor.App.Sync.{Task, with_rows, sync_with, sync_websub_subscriptions}
use pipitor.App.Reload.{App}
use pipitor.App.Core.Loaded.{without_tokens, new-ok, Loaded, load_with-Loaded}
use pipitor.App.Start.{Pass, scheduled, Sockets, listen, init_websub, with_http_client}

module _ {R : Type 0} where
  -- A core with the manifest and its router.
  abbrev IsCoreOf : Manifest R → Core R → Type 0
  IsCoreOf m c = (c.manifest ≡ m) × (c.router ≡ from_manifest m)

  new-IsCoreOf :
      (pool : Option Pool) (m : Manifest R) (c : Core R)
      → new pool m ≡ ok c
      → (validate m ≡ none) × IsCoreOf m c
  unfolding load_twitter_tokens Loaded
  new-IsCoreOf pool m c h =
      let (valid, (p, e, h')) = new-ok pool m c h in
      let loaded : Loaded (without_tokens m p) (ok c) =
        subst (Loaded (without_tokens m p)) h'
          (load_with-Loaded (without_tokens m p) m.twitter p.rows) in
      (valid, (loaded.same_manifest, loaded.same_router))

  init_websub-ok :
      (to_uri : String → Uri) (s : Sockets) (c c' : Core R) (w : Option Uri)
      → init_websub to_uri s c ≡ ok (w, c')
      → (c'.manifest ≡ c.manifest)
        × (c'.router ≡ c.router)
        × (is_some w ≡ is_some c.manifest.websub)
  unfolding init_websub
  init_websub-ok to_uri s c c' w h = elim (Option-cases c.manifest.websub) [
    | inl e ↦
        let start : Option Uri × Core R = (none, c) in
        let same : start ≡ (w, c') = cc (rw (init_websub, e) at h) in
        subst
          (λ r.
            (r.1.manifest ≡ c.manifest)
            × (r.1.router ≡ c.router)
            × (is_some r.0 ≡ is_some c.manifest.websub))
          same (refl, refl, rw e refl)
    | inr (config, e) ↦
        let (u, e0, h0) = bind-ok (listen s config.bind) _ (rw (init_websub, e) at h) in
        let (rows, e1, h1) = bind-ok (unwrap c.pool.rows) _ h0 in
        let rows' : Rows = record rows { websub = remove_dangling_subscriptions rows.websub } in
        let c1 : Core R = record c { pool = record c.pool { rows = some rows' } } in
        let start : Option Uri × Core R =
          (some (prepare_callback_prefix (to_uri config.callback)), c1) in
        let same : start ≡ (w, c') = cc h1 in
        subst
          (λ r.
            (r.1.manifest ≡ c.manifest)
            × (r.1.router ≡ c.router)
            × (is_some r.0 ≡ is_some c.manifest.websub))
          same (refl, refl, rw e refl)
  ]

  pub scheduled-Same :
      (b : Library) (passes : List Pass) (w : Option Uri) (rows : Option Rows) (c : Core R)
      → let c' = scheduled b passes w rows c in
        (c'.manifest ≡ c.manifest) × (c'.router ≡ c.router) × (c'.twitter_tokens ≡ c.twitter_tokens)
  scheduled-Same b passes none rows c = (refl, refl, refl)
  scheduled-Same b passes (some callback) none c = (refl, refl, refl)
  scheduled-Same b passes (some callback) (some rows) c = (refl, refl, refl)

  with_rows-Same :
      (c c' : Core R) (rows : Rows) (tasks : List Task) (o : Option (List Task × Db))
      → with_rows c rows o ≡ ok (tasks, c')
      → (c'.manifest ≡ c.manifest) × (c'.router ≡ c.router)
  with_rows-Same c c' rows tasks none h = absurd (cc h)
  with_rows-Same c c' rows tasks (some (ts, d)) h =
      let same : record c { pool = record c.pool { rows = some (record rows { websub = d }) } }
          ≡ c' =
        ap (λ r. r.1) (ok-injective h) in
      subst (λ (x : Core R). (x.manifest ≡ c.manifest) × (x.router ≡ c.router)) same (refl, refl)

  sync-ok :
      (b : Library) (w : Option Uri) (rows : Option Rows) (c c' : Core R) (tasks : List Task)
      → sync_with b c w rows ≡ ok (tasks, c')
      → (c'.manifest ≡ c.manifest) × (c'.router ≡ c.router)
  sync-ok b none rows c c' tasks h =
      let same : c ≡ c' = ap (λ r. r.1) (ok-injective h) in
      subst (λ (x : Core R). (x.manifest ≡ c.manifest) × (x.router ≡ c.router)) same (refl, refl)
  sync-ok b (some callback) none c c' tasks h = absurd (cc h)
  sync-ok b (some callback) (some rows) c c' tasks h = with_rows-Same c c' rows tasks _ h

  -- An application that has started has a manifest that validates, with its router, and a subscriber
  -- exactly if the manifest asks for one.
  pub with_http_client-IsCoreOf :
      (to_uri : String → Uri) (s : Sockets) (b : Library) (connects : Stream → Connection)
      (pool : Option Pool) (m : Manifest R) (app : App R) (tasks : List Task)
      → with_http_client to_uri s b connects pool m ≡ ok (app, tasks)
      → (validate m ≡ none) × IsCoreOf m app.core × (is_some app.websub ≡ is_some m.websub)
  unfolding with_http_client sync_websub_subscriptions
  with_http_client-IsCoreOf to_uri s b connects pool m app tasks h =
      let (c, e0, h0) = bind-ok (new pool m) _ h in
      let (started, e1, h1) = bind-ok (init_websub to_uri s c) _ h0 in
      let (twitter, e2, h2) = bind-ok (init_twitter connects started.1) _ h1 in
      let c1 : Core R = scheduled b s.passes started.0 started.1.pool.rows started.1 in
      let (list, e3, h3) = bind-ok (init_twitter_list c1) _ h2 in
      let (synced, e4, h4) = bind-ok (sync_websub_subscriptions b started.0 c1) _ h3 in
      let (valid, (manifest, router)) = new-IsCoreOf pool m c e0 in
      let (manifest1, router1, asked) = init_websub-ok to_uri s c started.1 started.0 e1 in
      let (manifest2, router2, _) =
        scheduled-Same b s.passes started.0 started.1.pool.rows started.1 in
      let (manifest3, router3) = sync-ok b started.0 c1.pool.rows c1 synced.1 synced.0 e4 in
      let made : App R = record {
        core = synced.1;
        twitter = twitter;
        twitter_list = list;
        websub = started.0;
      } in
      let same : made ≡ app = ap (λ r. r.0) (ok-injective h4) in
      subst (λ x. (validate m ≡ none) × IsCoreOf m x.core × (is_some x.websub ≡ is_some m.websub))
        same
        (
          valid,
          (manifest3 ∙ manifest2 ∙ manifest1 ∙ manifest, router3 ∙ router2 ∙ router1 ∙ router),
          asked ∙ ap (λ x. is_some x.websub) manifest,
        )
