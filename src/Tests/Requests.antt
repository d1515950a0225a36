-- ===== src/Tests/Requests.antt =====
-- The theorems on signed requests and on the order of rules at concrete inputs.
use pipitor.Base.{List, [], ◌∷◌, String, none, some, str_eq, ◌≡◌, refl, sym, subst, All}
use mathlib.Core.Quot.{Quot}
use mathlib.Core.Quot
use pipitor.Base.Int.{pos}
use pipitor.Manifest.{
  Outbox, Rule, Manifest, outbox_user, validate, twitter_outboxes, twitter_topics, has_topic,
}
use pipitor.Router.{from_manifest, route_entry, route_tweet}
use pipitor.Router.Order.{SameOutboxes, Rules, route-reordered}
use pipitor.App.Core.{
  init_twitter, init_twitter_list, Pool, Connection, ids, new, gc_twitter_tokens, load_rows,
}
use pipitor.App.Requests.Routed.{IsSigned}
use pipitor.App.Reload.{App, replace_manifest, install, has_updates}
use pipitor.App.Reload.Authorized.{HasKey}
use pipitor.App.Start.{with_http_client, run_passes}
use pipitor.App.Sync.{sync_websub_subscriptions, sync_topics, unsubscribe_each}
use pipitor.Websub.Service.{remove_dangling_subscriptions}
use pipitor.Websub.Store.{delete_subscriptions}
use pipitor.Manifest.{feed_topics}
use pipitor.App.Lifecycle.{Reach, starts, reloads}
use pipitor.App.Lifecycle.Signed.{Reach-IsSigned}
use mathlib.Core.Option
use pipitor.Base.Ints.{UniqueInts}
use pipitor.Tests.Data.{padded, callback}
use pipitor.Tests.Loop.{asked, sockets, started, the_app}
use pipitor.Tests.Application.{rule, config, manifest, entry, tweet, core, token}

abbrev the_request : String
the_request = "update"

-- An application that has started, and has then been given its manifest without the subscriber.
abbrev reloaded : App String
reloaded =
    (replace_manifest padded (λ stream. Connection.accepted) none manifest (the_app started).0).1

has_key : (p : Pool) → Option.map (λ r. r.twitter_tokens) p.rows ≡ some (token ∷ []) → HasKey p
has_key p h r e =
    let same : r.twitter_tokens ≡ token ∷ [] = cc (rw e at h) in
    subst (λ ts. UniqueInts (ids ts)) (sym same) (refl, tt)

reached : Reach padded reloaded
unfolding with_http_client new validate load_rows twitter_outboxes init_twitter init_twitter_list
    sync_websub_subscriptions sync_topics remove_dangling_subscriptions delete_subscriptions
    feed_topics run_passes unsubscribe_each
reached =
    reloads (λ stream. Connection.accepted) none manifest
      (has_key (the_app started).0.core.pool refl) (λ pool e. absurd (cc e))
      (starts (λ s. callback) sockets (λ stream. Connection.accepted) core.pool asked
        (the_app started).1 (has_key core.pool refl) refl)

Reach-IsSigned_example :
    IsSigned reloaded.core config the_request none (pos 7)
    × All
        (λ o. IsSigned reloaded.core config the_request (some (outbox_user o)) (outbox_user o))
        (route_entry str_eq reloaded.core.router "https://feed" entry)
    × All
        (λ o. IsSigned reloaded.core config the_request (some (outbox_user o)) (outbox_user o))
        (route_tweet str_eq reloaded.core.router (tweet 1))
unfolding replace_manifest validate with_http_client new load_rows twitter_outboxes init_twitter
    init_twitter_list sync_websub_subscriptions sync_topics remove_dangling_subscriptions
    delete_subscriptions feed_topics run_passes unsubscribe_each install has_updates twitter_topics
    has_topic gc_twitter_tokens
Reach-IsSigned_example =
    Reach-IsSigned str_eq padded config the_request "https://feed" entry (tweet 1) reached refl

-- A rule that leads the same feed to another user.
abbrev second : Rule String
second = record rule { route = record rule.route { outbox = Outbox.twitter (pos 8) ∷ [] } }

abbrev ruled : List (Rule String) → Manifest String
ruled rules = record manifest { rule = rules }

reordered : ◌≡◌ {A = Rules String} (Quot.mk (rule ∷ second ∷ [])) (Quot.mk (second ∷ rule ∷ []))
reordered = Quot.sound ([], rule, second, [], refl, refl)

route-reordered_example :
    SameOutboxes
      (route_entry str_eq (from_manifest (ruled (rule ∷ second ∷ []))) "https://feed" entry)
      (route_entry str_eq (from_manifest (ruled (second ∷ rule ∷ []))) "https://feed" entry)
route-reordered_example =
    (route-reordered str_eq (ruled (rule ∷ second ∷ [])) (ruled (second ∷ rule ∷ [])) "https://feed"
      entry (tweet 1) reordered).0
