-- ===== src/Lib.antt =====
-- pipitor reads feeds and Twitter timelines and retweets or posts what a manifest selects. The
-- library models the core of the program and proves what makes its parts correct.
--
-- The parts, and the files that model them:
-- - src/schema.rs and migrations/: the tables of subscriptions. Websub/Store has the four tables, the
--   statements on them with keys, foreign keys and cascades, and `IsValid`, what sound tables are;
--   Websub/Store/Integrity has the lemmas on the statements.
-- - src/websub.rs, `make_callback` of src/websub/hub.rs and `prepare_callback_prefix` of
--   src/websub/subscriber.rs: the callbacks, in Websub/Callback and Websub/Address.
-- - src/websub/hub.rs: the requests to hubs with the rows that they leave, in Websub/Hub. What a
--   function draws from `rand` is an argument; `Outcome` has a case for a panic of `unwrap`,
--   and one, `crashed`, for that of `send_request` at a hub that is no URI, which comes when the tables
--   have been changed already: it has these and the requests that were sent before.
-- - src/websub/subscriber/service.rs: Websub/Service has the renewals and the verification of intents,
--   Websub/Service/Call the handler of requests and the task that verifies a signature. The handler
--   uses the tables, and hastens the scheduler by the time in its result.
-- - src/websub as a whole: Websub/Lifecycle has the operations of the two items above in any order, as a
--   step relation on the tables, the requests sent and the confirmations; its child modules are what
--   holds of every world that can be reached, the phases of a subscription with the operations that
--   change them, and the pushes accepted.
-- - src/websub/subscriber/scheduler.rs and src/util/time.rs: the timer of the renewals, in
--   Websub/Scheduler.
-- - src/websub/subscriber.rs: Websub/Subscriber has the ticks, the function that the scheduler runs
--   and the stream of updates.
-- - src/manifest.rs and src/router.rs: Manifest has the data and the validation, Manifest/Matching the
--   filters, Manifest/Value and Manifest/Deserialize how a manifest is read from the values that a
--   deserializer of serde hands over, Manifest/Paths the address of the database, and Router the router;
--   Router/Order is its view of the rules without their order, a quotient.
-- - src/app/sender.rs and src/models.rs: App/Sender has what a Tweet leads to, with the tables of
--   Tweets and retweets, and App/Sender/Entries the updates for the entries of a feed.
-- - src/app/core.rs: App/Core has the tokens of the users and the connections to Twitter.
-- - src/app/twitter_request_ext.rs: App/Requests has the signature of a request.
-- - src/twitter/api.rs and the modules below it: Twitter/Api has the requests, and Twitter/Api/Timeline
--   compares them with those of Twitter/ListTimeline.
-- - src/app.rs: App/Start has `with_http_client` with the runs of the scheduler during it, App/Sync `sync_websub_subscriptions`, App/Reload
--   `replace_manifest` with its guard, App/Running the polling of the application with its shutdown and
--   its reset: what the list, the subscriber and the Streaming API yield goes to the functions of
--   App/Sender. App/Lifecycle is the start and the reloads in sequence.
-- - src/app/shutdown.rs: App/Shutdown has the handles that a shutdown waits for, each of whose drops is
--   two steps.
-- - src/twitter/list_timeline.rs and src/twitter/list_timeline/interval.rs: Twitter/ListTimeline and
--   Twitter/Interval.
-- - src/twitter/text.rs and the snowflakes of src/util.rs: Twitter/Text and Twitter/Snowflake.
-- - src/twitter/models.rs and `replace_char_range` of src/util.rs: Twitter/Entities has the text of a
--   Tweet with its URLs expanded, Twitter/Entities/Bytes the offsets in bytes.
-- - src/feed.rs: Feed/MediaType, Feed/Convert and, for the descriptions of Media RSS, Feed/Extension.
-- - src/util/concat_body.rs and src/util/first.rs: Util/ConcatBody and Util/First.
-- - src/util/serde_wrapper.rs, src/util/r2d2.rs and the pragmas of src/query.rs: Util/Handed has the
--   forms in which a deserializer hands a text over, Util/Connections what each connection executes.
-- - src/socket.rs and src/socket/unix.rs: Util/Socket has the addresses, Util/Listener the listeners and
--   streams of both kinds.
-- - `discover` of src/websub/subscriber/service.rs: Websub/Discovery, which reads a body with
--   Util/ConcatBody, makes a feed of it with Feed/Convert and subscribes with Websub/Hub.
-- - src/bin/pipitor: Commands/Run has the main loop, Commands/Ipc the requests to it, Commands/ListSync,
--   Commands/Login and Commands/Unsubscribe the commands of the same names, Commands/Ctl `pipitor
--   ctl` against a program that runs, Commands/Files the search for the manifest, the path of the socket
--   and the dispatch of the commands, Commands/Input the prompt of the login, and Commands/Instances
--   any number of programs `pipitor run` beside each other, with the lock and the socket file.
-- Delivery composes these parts: from the requests of hubs and the discoveries over the channel of the
-- subscriber and a poll of the application to the updates for the outboxes.
-- Base has the names and lemmas that the parts share, Tests the theorems at concrete inputs.
--
-- State is passed explicitly: a function takes a record and returns the new one, with the requests and
-- tasks that it spawned. Numbers of type `i64` are integers, ids of subscriptions natural numbers below
-- 2^63; `u64` arithmetic is written with its wrap-around where the source can leave the range. An error
-- or a panic is a value of the result.
--
-- Loops are recursive functions on the list that they run over. The loop of `create_subscription`
-- runs over the numbers that it draws, and ends as `starved` when these are all taken. The backfill has
-- fuel, one unit for each request; a timeline of n Tweets needs n + 1. The loop over the list in a poll
-- of the application has fuel for the pages that wait in the channel and one more. The prompt for a PIN
-- has fuel, one unit for each prompt: at the end of the input no fuel is enough.
--
-- The crates base64 and http, as far as the latter tells whether a text is a URI, hmac, mime, serde_urlencoded, regex and the feed parsers are parameters, records
-- with the laws that the code relies on. The hubs and Twitter are arguments that say what they answer.
--
-- Not modelled: the encoding of requests and the adapters of other crates, which are declarations around
-- those crates, the parsers of serde and the arrays that it takes for structs, and what the program
-- prints but for the list of subscriptions and the answers to `pipitor ctl`.
pub mod Base
pub mod Feed
pub mod Manifest
pub mod Router
pub mod Twitter
pub mod App
pub mod Util
pub mod Websub
pub mod Commands
pub mod Delivery
pub mod Tests
