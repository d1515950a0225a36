-- ===== src/App/Lifecycle/Signed.antt =====
-- The tokens of an application over its life.
use pipitor.Base.{
  String, Bool, List, Option, none, some, ◌≡◌, refl, sym, ap, ◌∙◌, subst, All, Option-cases, inl,
  inr,
}
use pipitor.Manifest.{Manifest, Twitter, outbox_user}
use pipitor.Manifest.Matching.{Entry, Tweet}
use pipitor.Router.{from_manifest, route_entry, route_tweet}
use pipitor.Websub.Callback.{Library}
use pipitor.Websub.Address.{Uri}
use pipitor.Websub.Service.{remove_dangling_subscriptions}
use pipitor.App.Core.Tokens.{is_user}
use pipitor.App.Core.{
  Core, Pool, Rows, Stream, Connection, ok, ok-injective, bind-ok, has_token, new, init_twitter,
  init_twitter_list, unwrap,
}
use pipitor.App.Core.Loaded.{without_tokens, new-ok}
use pipitor.App.Requests.Routed.{IsSigned, routed-IsSigned}
use pipitor.App.Sync.{Task, sync_websub_subscriptions}
use pipitor.App.Reload.{App}
use pipitor.App.Reload.Authorized.{
  HasKey, IsAuthorized, IsOwn, Same, SyncSame, sync_with-SyncSame, loaded-IsAuthorized,
  replace_manifest-IsOwn,
}
use pipitor.App.Start.{scheduled, Sockets, listen, init_websub, with_http_client}
use pipitor.App.Start.Started.{with_http_client-IsCoreOf, scheduled-Same}
use pipitor.App.Lifecycle.{Reach, starts, reloads}

module _ {R : Type 0} where
  init_websub-Same :
      (to_uri : String → Uri) (s : Sockets) (c c' : Core R) (w : Option Uri)
      → init_websub to_uri s c ≡ ok (w, c')
      → Same c c'
  unfolding init_websub
  init_websub-Same to_uri s c c' w h = elim (Option-cases c.manifest.websub) [
    | inl e ↦
        let same : c ≡ c' = cc (rw (init_websub, e) at h) in
        subst (λ (x : Core R). Same c x) same (refl, refl)
    | inr (config, e) ↦
        let (u, e0, h0) = bind-ok (listen s config.bind) _ (rw (init_websub, e) at h) in
        let (rows, e1, h1) = bind-ok (unwrap c.pool.rows) _ h0 in
        let rows' : Rows = record rows { websub = remove_dangling_subscriptions rows.websub } in
        let c1 : Core R = record c { pool = record c.pool { rows = some rows' } } in
        let same : c1 ≡ c' = ap (λ x. x.1) (ok-injective h1) in
        subst (λ (x : Core R). Same c x) same (refl, refl)
  ]

  new-IsAuthorized :
      (pool : Pool) (m : Manifest R) (c : Core R)
      → HasKey pool
      → new (some pool) m ≡ ok c
      → IsAuthorized c
  new-IsAuthorized pool m c key h =
      let (_, (p, taken, h')) = new-ok (some pool) m c h in
      let same : p ≡ pool = cc taken in
      loaded-IsAuthorized (without_tokens m p) c h' (subst HasKey (sym same) key)

  Same-IsAuthorized : (c c' : Core R) → Same c c' → IsAuthorized c → IsAuthorized c'
  Same-IsAuthorized c c' (manifest, tokens) h u k =
      ap (λ tokens. has_token u tokens) tokens ∙ h u (ap (λ m. is_user m u) (sym manifest) ∙ k)

  with_http_client-IsOwn :
      (to_uri : String → Uri) (s : Sockets) (b : Library) (connects : Stream → Connection)
      (pool : Pool) (m : Manifest R) (app : App R) (tasks : List Task)
      → HasKey pool
      → with_http_client to_uri s b connects (some pool) m ≡ ok (app, tasks)
      → IsOwn app.core
  unfolding with_http_client sync_websub_subscriptions SyncSame
  with_http_client-IsOwn to_uri s b connects pool m app tasks key h =
      let (c, e0, h0) = bind-ok (new (some pool) m) _ h in
      let (started, e1, h1) = bind-ok (init_websub to_uri s c) _ h0 in
      let (twitter, e2, h2) = bind-ok (init_twitter connects started.1) _ h1 in
      let c1 : Core R = scheduled b s.passes started.0 started.1.pool.rows started.1 in
      let (list, e3, h3) = bind-ok (init_twitter_list c1) _ h2 in
      let (synced, e4, h4) = bind-ok (sync_websub_subscriptions b started.0 c1) _ h3 in
      let (manifest1, _, tokens1) =
        scheduled-Same b s.passes started.0 started.1.pool.rows started.1 in
      let authorized : IsAuthorized synced.1 =
        Same-IsAuthorized c1 synced.1
          (subst (SyncSame c1) e4 (sync_with-SyncSame b c1 started.0 c1.pool.rows))
          (Same-IsAuthorized started.1 c1 (manifest1, tokens1)
            (Same-IsAuthorized c started.1 (init_websub-Same to_uri s c started.1 started.0 e1)
              (new-IsAuthorized pool m c key e0))) in
      let made : App R = record {
        core = synced.1;
        twitter = twitter;
        twitter_list = list;
        websub = started.0;
      } in
      let same : made ≡ app = ap (λ r. r.0) (ok-injective h4) in
      let (_, (manifest, router), _) =
        with_http_client-IsCoreOf to_uri s b connects (some pool) m app tasks h in
      (
        router ∙ ap from_manifest (sym manifest),
        subst (λ (x : App R). IsAuthorized x.core) same authorized,
      )

  Reach-IsOwn : (b : Library) {app : App R} → Reach b app → IsOwn app.core
  Reach-IsOwn b {app} (starts to_uri s connects pool m tasks key h) =
      with_http_client-IsOwn to_uri s b connects pool m app tasks key h
  Reach-IsOwn b (reloads {app = before} connects opened m key key' r) =
      replace_manifest-IsOwn b connects opened m before key key' (Reach-IsOwn b r)

  module _ {Q : Type 0} (is_match : R → String → Bool) (b : Library) where
    -- Over the whole life of an application, each request for an outbox that the router leads an entry or
    -- a Tweet to, and each request for the manifest's own user, is signed by the client and the token of
    -- its user: no lookup of a token panics.
    pub Reach-IsSigned :
        {app : App R} (config : Twitter) (q : Q) (topic : String) (entry : Entry) (tweet : Tweet)
        → Reach b app
        → app.core.manifest.twitter ≡ some config
        → IsSigned app.core config q none config.user
          × All
              (λ o. IsSigned app.core config q (some (outbox_user o)) (outbox_user o))
              (route_entry is_match app.core.router topic entry)
          × All
              (λ o. IsSigned app.core config q (some (outbox_user o)) (outbox_user o))
              (route_tweet is_match app.core.router tweet)
    Reach-IsSigned {app} config q topic entry tweet r e =
        let (router, authorized) = Reach-IsOwn b r in
        routed-IsSigned is_match app.core config q topic entry tweet e router authorized
