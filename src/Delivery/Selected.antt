-- ===== src/Delivery/Selected.antt =====
-- Where the updates come from that a poll of the application spawns.
use pipitor.Base.{ℕ, String, Bool, List, retain, some, ◌≡◌, All}
use mathlib.Core.List.{Memᴰ}
use pipitor.Feed.Convert.{Feed}
use pipitor.Manifest.{TopicId, Outbox, Manifest}
use pipitor.Manifest.Matching.{Entry}
use pipitor.Router.{outbox_all, passes_entry}
use pipitor.Router.Routes.{routes_for}
use pipitor.Websub.Callback.{Library}
use pipitor.Websub.Address.{Uri}
use pipitor.Websub.Service.Call.{Mac, Parsers}
use pipitor.Websub.Discovery.{Crates, Fetched}
use pipitor.App.Core.{Core}
use pipitor.App.Sender.{Tables}
use pipitor.App.Sender.Entries.{Update}
use pipitor.App.Running.{Running, Sent, retweets, updates, Work, tweets, feed, tweet}
use pipitor.Delivery.Complete.{update_for}
use pipitor.Delivery.Genuine.{IsGenuine}

module _ (chars : String → List ℕ) (route : String → Entry → List Outbox) (P : Update → Type 0)
    (topic : String) (s : Tables) where
  -- An update with the link of the entry, its title and the user of the outbox.
  abbrev Tells : Entry → Update → Outbox → Type 0
  Tells e u o = (link : String) × (e.link ≡ some link) × (u ≡ update_for chars e link o)

module _ (b : Library) (callback : Uri) (m : Mac) (p : Parsers Feed) (crates : Crates)
    (web : String → Fetched → Type 0) where
  module _ {R : Type 0} (chars : String → List ℕ) (is_match : R → String → Bool)
      (manifest : Manifest R) where
    -- An update for an outbox of a rule that selects an entry of a genuine feed, which it tells of.
    abbrev pub IsSelected : Update → Type 0
    IsSelected u =
        (topic : String) × (f : Feed) × (e : Entry) × (o : Outbox) × IsGenuine b callback m p crates
          web topic f
        × Memᴰ e f.entries
        × Memᴰ o (
            outbox_all
              (retain (passes_entry is_match e) (routes_for (TopicId.feed topic) manifest.rule)))
        × ((link : String) × (e.link ≡ some link) × (u ≡ update_for chars e link o))

    abbrev pub AllSelected : Sent → Type 0
    AllSelected (retweets tasks) = Unit {0}
    AllSelected (updates us) = All IsSelected us

    -- Work that leads to no other updates.
    abbrev IsGenuineWork : Work → Type 0
    IsGenuineWork (tweets ts) = Unit {0}
    IsGenuineWork (feed topic es) =
        (f : Feed) × IsGenuine b callback m p crates web topic f × (es ≡ f.entries)
    IsGenuineWork (tweet t) = Unit {0}

    IsSent : Running R → Type 0
    IsSent a = All AllSelected a.sent
