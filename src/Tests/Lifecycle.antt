-- ===== src/Tests/Lifecycle.antt =====
-- The theorems on the life of the subscriber at concrete inputs.
use pipitor.Base.{ℕ, [], ◌∷◌, some, ◌≡◌, refl, arith}
use pipitor.Feed.MediaType.{MediaType, from_str}
use pipitor.Websub.Address.{CallbackId, callback_id, callback_id-make_callback}
use pipitor.Websub.Store.{Subscription, insert_subscription, insert_pending}
use pipitor.Websub.Hub.{new_row, insert_drawn, create_subscription, subscribe}
use pipitor.Websub.Service.{answered}
use pipitor.Websub.Service.Call.{
  Task, call, dispatch, push, check_signature, push_to, split_signature,
}
use pipitor.Websub.Lifecycle.{World, start, Step, subscribes, Reach, here, next, asks, IsSound}
use pipitor.Websub.Lifecycle.Sound.{Reach-IsSound}
use pipitor.Websub.Lifecycle.Phases.{phase, Edge, cause, Reach-Edge}
use pipitor.Websub.Lifecycle.Pushes.{IsWanted, Reach-IsWanted}
use pipitor.Tests.Data.{padded, callback, rng}
use pipitor.Tests.Subscriber.{parsers, pushed}

-- A subscription to a feed, under id 2.
abbrev pub row : Subscription
row = new_row padded "https://hub" "https://feed" rng 2

abbrev pub asked : World
asked = record {
  db = record { subscriptions = row ∷ []; active = []; pending = 2 ∷ []; renewing = [] };
  sent = asks padded callback row ∷ [];
  confirmed = [];
}

asked_step : Step padded callback start asked
unfolding subscribe create_subscription insert_drawn insert_subscription insert_pending
asked_step =
    subscribes "https://hub" "https://feed" rng (asks padded callback row ∷ []) asked.db refl

pub reached : Reach padded callback asked
reached = next here asked_step

Reach-IsSound_example : IsSound padded callback asked
Reach-IsSound_example = Reach-IsSound padded callback reached

Reach-Edge_example : Edge start.db 2 (cause asked_step) (phase start.db 2) (phase asked.db 2)
Reach-Edge_example = Reach-Edge padded callback here asked_step 2

abbrev task : Task
task = record {
  kind = MediaType.atom;
  signature = 8 ∷ 4 ∷ [];
  topic = "https://feed";
  secret = row.secret;
}

Reach-IsWanted_example :
    (id : ℕ) × (callback_id padded callback pushed.path ≡ CallbackId.found id)
    × IsWanted padded callback asked id task
unfolding call dispatch push check_signature push_to split_signature from_str
Reach-IsWanted_example =
    Reach-IsWanted padded callback parsers 60 100 pushed task
      (record { answer = answered (record { status = 200; body = "" }) asked.db; task = some task })
      reached (rw (callback_id-make_callback padded callback 2 (omega arith)) refl) refl
