-- ===== src/Websub/Lifecycle/Pushes.antt =====
-- What the server accepts in a world that the subscriber can reach.
use pipitor.Base.{
  ℕ, Bool, true, List, [], ◌∷◌, ◌==◌, find, some, ◌≡◌, arith, All, ==_iff, subst, refl, Bool-cases,
  inl, inr, false, ◌⊎◌,
}
use mathlib.Core.List.{Memᴰ}
use mathlib.Core.List.Memᴰ
use pipitor.Websub.Callback.{Library}
use pipitor.Websub.Address.{Uri, CallbackId, make_callback, callback_id}
use pipitor.Websub.Hub.{Form, done}
use pipitor.Websub.Store.{Subscription}
use pipitor.Websub.Service.Call.{HttpRequest, Parsers, Task, Called, call}
use pipitor.Websub.Service.Call.Push.{call-IsPush}
use pipitor.Websub.Lifecycle.{World, Reach, IsAskedFor}
use pipitor.Websub.Lifecycle.Sound.{Reach-IsSound}

find-All :
    {A : Type 0} (P : A → Type 0) (p : A → Bool) (xs : List A) (x : A)
    → All P xs
    → find p xs ≡ some x
    → P x × (p x ≡ true)
find-All P p [] x h e = ground arith
find-All P p (y ∷ xs) x h e = elim (Bool-cases (p y)) [
  | inl k ↦ let same : y ≡ x = cc (rw k at e) in subst (λ z. P z × (p z ≡ true)) same (h.0, k)
  | inr k ↦ find-All P p xs x h.1 (rw k at e)
]

module _ (b : Library) (callback : Uri) where
  -- The row that a push is for, and the request to its hub, if that is a URI: one that is not cannot
  -- be asked.
  abbrev pub IsWanted : World → ℕ → Task → Type 0
  IsWanted w id t =
      (s : Subscription) × (find (λ q. q.id == id) w.db.subscriptions ≡ some s)
      × ((b.is_uri s.hub ≡ false)
          ⊎ Memᴰ
              (record {
                hub = s.hub;
                form = Form.subscribes (make_callback b callback id) t.topic t.secret;
              })
              w.sent)

module _ {F : Type 0} (b : Library) (callback : Uri) (p : Parsers F) where
  -- In a world that can be reached a task is spawned only for a callback whose subscription has a row,
  -- and if the hub of that row is a URI, the program has asked it for the task's topic with the task's
  -- secret under that callback.
  pub Reach-IsWanted :
      {w : World} (margin now : ℕ) (req : HttpRequest) (t : Task) (c : Called)
      → Reach b callback w
      → call b callback p margin now req w.db ≡ done c
      → c.task ≡ some t
      → (id : ℕ) × (callback_id b callback req.path ≡ CallbackId.found id)
        × IsWanted b callback w id t
  Reach-IsWanted {w} margin now req t c r run e =
      let (id, found, _, push) = call-IsPush b callback p margin now req w.db t c run e in
      let task = push.5 in
      let (s, row, _, _, topic, secret, _) = task in
      let (asked, same) =
        find-All (IsAskedFor b callback w.sent) (λ q. q.id == id) w.db.subscriptions s
          (Reach-IsSound b callback r).asked row in
      let same_id : s.id ≡ id = (==_iff s.id id).0 same in
      (
        id,
        found,
        (
          s,
          row,
          elim (Bool-cases (b.is_uri s.hub)) [
            | inl good ↦ inr (Memᴰ.cast (rw (topic, secret, ← same_id) refl) (asked good))
            | inr bad ↦ inl bad
          ],
        ),
      )
