-- ===== src/Tests/Loop.antt =====
-- The theorems on the polling of the application at concrete inputs, and a race of its shutdown.
use pipitor.Base.{List, none, String, true, false, [], ◌∷◌, some, str_eq, ◌≡◌, refl, ap, arith}
use pipitor.App.Core.{Connection}
use pipitor.App.Shutdown.{
  Shutdown, poll, dropped, released, cloning, dropping, steps, run, run-wakes,
}
use pipitor.App.Running.{
  Running, just, nothing, event, quiet, update, idle, waiting, poll_shutdown, reset,
}
use pipitor.App.Running
use pipitor.App.Running.Polled.{end_of, fails, poll_lem}
use pipitor.Manifest.{Manifest}
use pipitor.App.Core.{Try, ok}
use pipitor.App.Reload.{App}
use pipitor.App.Sync.{Task}
use pipitor.App.Start.{Sockets, made, absent, with_http_client}
use pipitor.Tests.Data.{padded, callback}
use pipitor.Tests.Application.{manifest, core, tables, sender, tweet, timeline, entry, chars}

abbrev watched : Shutdown
watched = record { strong = 3; registered = false }

run-wakes_example :
    (run (steps (dropping ∷ cloning ∷ dropping ∷ dropping ∷ [])) (poll watched).1).0 ≡ true
unfolding poll run steps
run-wakes_example =
    (run-wakes watched (dropping ∷ cloning ∷ dropping ∷ dropping ∷ []) (omega arith) refl).1

-- Two threads drop the last two handles: each looks at the count before the other has changed it, and
-- the task that waits is not woken although the object's own handle is the only one left.
race :
    run (dropped ∷ dropped ∷ released ∷ released ∷ []) (record { strong = 3; registered = true })
    ≡ (false, record { strong = 1; registered = true })
unfolding run
race = refl

-- A page of the list, an update and a Tweet of the stream.
abbrev running : Running String
running = record {
  core = core;
  twitter = some (event (just (tweet 50)) (event nothing quiet));
  twitter_list =
      some (record { sender = record sender { queue = timeline ∷ [] }; shut = false; senders = 1 });
  websub = some (update "https://feed" (entry ∷ []) idle);
  tables = tables;
  sent = [];
  handles = 1;
}

poll_lem_example : (pipitor.App.Running.poll chars str_eq running).0 ≡ waiting
unfolding end_of fails
poll_lem_example = ap (λ r. r.0) (poll_lem chars str_eq running)

-- The socket of the subscriber is passed by the environment.
abbrev pub asked : Manifest String
asked = record manifest {
  websub = some (record { callback = "https://example.com"; bind = none; renewal_margin = 3_600 });
}

abbrev pub sockets : Sockets
sockets = record { passes = []; bind = λ addr. false; tcp = absent; unix = made }

abbrev pub started : Try (App String × List Task)
started =
    with_http_client (λ s. callback) sockets padded (λ stream. Connection.accepted) (some core.pool)
      asked

abbrev pub the_app : Try (App String × List Task) → App String × List Task
the_app (ok r) = r
the_app t = (record { core = core; twitter = none; twitter_list = none; websub = none }, [])
