-- ===== src/Tests/Subscriber.antt =====
-- The subscriber's theorems at concrete inputs.
use pipitor.Base.{ℕ, ◌≡◌, refl, arith, List, [], ◌∷◌, true, none, some, ◌⊎◌}
use pipitor.Feed.MediaType.{MediaType, from_str}
use pipitor.Websub.Address.{CallbackId, make_callback, callback_id, callback_id-make_callback}
use pipitor.Websub.Store.{Db, IsValid, is_active, is_pending}
use pipitor.Websub.Hub.{Request, done, subscribe}
use pipitor.Websub.Service.{
  Verify, Verified, remove_dangling_subscriptions, answered, expiring, renew_subscriptions,
  verify_intent,
}
use pipitor.Websub.Service.Renewal.{Renews, renew_subscriptions_lem}
use pipitor.Websub.Service.Intent.{verify_intent-IsValid, IsRefusal, IsCrash}
use pipitor.Websub.Service.Flow.{verify_intent-subscribe}
use pipitor.Websub.Service.Call.{
  HttpRequest, Parsers, Task, call, split_signature, verify_signature, dispatch, push,
  check_signature, push_to,
}
use pipitor.Websub.Service.Call.Push.{content_of, verify_signature_iff, call-IsPush}
use pipitor.Websub.Scheduler.{Clock, Scheduler, poll, hasten}
use pipitor.Websub.Scheduler.Ticks.{poll-hasten}
use pipitor.Websub.Subscriber.{Ran, run_scheduled}
use pipitor.Websub.Subscriber.Schedule.{run_scheduled-later}
use pipitor.App.Start.{Pass, run_passes}
use pipitor.App.Start.Cleaned.{run_passes-cleaned}
use pipitor.Tests.Data.{padded, callback, db, db-IsValid, rng, concatenation, active_row}

callback_id-make_callback_example :
    callback_id padded callback (make_callback padded callback 258).path ≡ CallbackId.found 258
callback_id-make_callback_example = callback_id-make_callback padded callback 258 (omega arith)

verify_intent-IsValid_example :
    ((w : Verified) × (verify_intent padded callback 60 100 1
          (some (Verify.subscribes "https://topic" "challenge" 3600))
          db
        ≡ done w)
      × IsValid w.db
      × ((w.response.status ≡ 200) ⊎ IsRefusal padded callback 60 100 1 db w))
    ⊎ IsCrash padded callback 60 100 1 db (
        verify_intent padded callback 60 100 1
          (some (Verify.subscribes "https://topic" "challenge" 3600))
          db)
verify_intent-IsValid_example =
    verify_intent-IsValid padded callback 60 100 1 db
      (some (Verify.subscribes "https://topic" "challenge" 3600)) db-IsValid

-- The draws of the row that is due: the first is taken.
verify_intent-subscribe_example :
    (q : Request) × (d : Db) × (w : Verified) × (subscribe padded callback "https://hub"
        "https://new" rng db
      ≡ done (q, d))
    × (is_pending d 10 ≡ true)
    × (verify_intent padded callback 60 100 10
          (some (Verify.subscribes "https://new" "challenge" 3600))
          d
        ≡ done w)
    × (is_active w.db 10 ≡ true)
verify_intent-subscribe_example =
    let (q, d, w, sent, form, fresh, waits, verified, response, hastened, valid, on) =
      verify_intent-subscribe padded callback db "https://hub" "https://new" rng db-IsValid refl
        {x = 20} refl 60 100 3600 "challenge" in
    (q, d, w, sent, waits, verified, on)

renew_subscriptions_lem_example :
    (rs : List Request) × (d : Db) × (renew_subscriptions padded callback 60 950 (λ id. rng) db
      ≡ done (rs, d))
    × IsValid d
    × (expiring 1011 d ≡ [])
    × Renews padded callback (λ id. rng) (active_row ∷ []) rs
unfolding expiring
renew_subscriptions_lem_example =
    let (rs, d, run, valid, none_left, same, sent) =
      renew_subscriptions_lem padded callback (λ id. rng) 60 950 db db-IsValid (omega arith)
        (refl, tt) (20, refl, tt) in
    (rs, d, run, valid, none_left, sent)

run_scheduled-later_example :
    (r : Ran) × (run_scheduled padded callback 60 950 (λ id. rng) db ≡ done r) × IsValid r.db
unfolding expiring
run_scheduled-later_example =
    let (r, run, valid, later) =
      run_scheduled-later padded callback (λ id. rng) 60 950 db db-IsValid (omega arith) (refl, tt)
        (refl, tt) (20, refl, tt) in
    (r, run, valid)

-- Every text is a feed, and its content type is Atom's; a signature's digits are the signature.
abbrev pub parsers : Parsers (List ℕ)
parsers = record {
  verify = λ q. none;
  mime = λ header. some (record { type_ = "application"; subtype = "atom"; suffix = some "xml" });
  hex = λ size text. some text;
  feed = λ kind content. some content;
}

abbrev pub pushed : HttpRequest
pushed = record {
  path = (make_callback padded callback 2).path;
  query = none;
  content_type = some [];
  signature = some (b's' ∷ b'h' ∷ b'a' ∷ b'1' ∷ b'=' ∷ 8 ∷ 4 ∷ []);
  body = some (4 ∷ []) ∷ [];
}

abbrev task : Task
task = record {
  kind = MediaType.atom;
  signature = 8 ∷ 4 ∷ [];
  topic = "https://feed";
  secret = 8 ∷ [];
}

verify_signature_iff_example :
    verify_signature concatenation parsers true task pushed.body ≡ some ("https://feed", 4 ∷ [])
unfolding content_of
verify_signature_iff_example =
    (verify_signature_iff concatenation parsers task pushed.body "https://feed" (4 ∷ []) true).1
      (refl, 4 ∷ [], refl, (refl, refl, refl))

call-IsPush_example : (id : ℕ) × (callback_id padded callback pushed.path ≡ CallbackId.found id)
unfolding call dispatch push check_signature push_to split_signature from_str
call-IsPush_example =
    let (id, found, query, rest) =
      call-IsPush padded callback parsers 60 100 pushed db task
        (record { answer = answered (record { status = 200; body = "" }) db; task = some task })
        (rw (callback_id-make_callback padded callback 2 (omega arith)) refl) refl in
    (id, found)

abbrev clock : Clock
clock = record { instant_now = 9_000_000_000; now_unix = 8_000_000_000 }

abbrev scheduler : Scheduler
scheduler = record { alive = true; next_tick = 8; woken = true; delay = none }

poll-hasten_example : (poll clock none (hasten 5 scheduler)).ran ≡ true
poll-hasten_example =
    poll-hasten clock none 5 scheduler (omega arith) refl (omega arith) (omega arith)

-- The scheduler runs once while the start waits, and renews the subscription 2.
abbrev passes : List Pass
passes = record { now = 950; rng = λ id. rng } ∷ []

run_passes-cleaned_example :
    is_active (run_passes padded callback 60 passes (remove_dangling_subscriptions db)) 2 ≡ true
run_passes-cleaned_example = (run_passes-cleaned padded callback 60 passes db 2 db-IsValid).1
