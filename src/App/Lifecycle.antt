-- ===== src/App/Lifecycle.antt =====
-- src/app.rs: the life of an application, from its start over the reloads of its manifest. What else it
-- does leaves the manifest, the router and the tokens.
pub mod Signed
use pipitor.Base.{String, List, Option, some, ◌≡◌}
use pipitor.Manifest.{Manifest}
use pipitor.Websub.Callback.{Library}
use pipitor.Websub.Address.{Uri}
use pipitor.App.Core.{Pool, Stream, Connection, ok}
use pipitor.App.Sync.{Task}
use pipitor.App.Reload.{App, replace_manifest}
use pipitor.App.Reload.Authorized.{HasKey}
use pipitor.App.Start.{Sockets, with_http_client}

-- An application whose tables have their keys, at the start and at each reload, whatever its end.
pub data Reach {R : Type 0} (b : Library) : App R → Type 0 where
  starts :
      {app : App R} (to_uri : String → Uri) (s : Sockets) (connects : Stream → Connection)
      (pool : Pool) (m : Manifest R) (tasks : List Task)
      → HasKey pool
      → with_http_client to_uri s b connects (some pool) m ≡ ok (app, tasks)
      → Reach b app
  reloads :
      {app : App R} (connects : Stream → Connection) (opened : Option Pool) (m : Manifest R)
      → HasKey app.core.pool
      → ((pool : Pool) → opened ≡ some pool → HasKey pool)
      → Reach b app
      → Reach b (replace_manifest b connects opened m app).1
