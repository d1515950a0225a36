-- ===== src/Commands/Unsubscribe.antt =====
-- src/bin/pipitor/websub.rs: the commands that print the subscriptions and unsubscribe from them.
use pipitor.Base.{
  ℕ, String, Bool, not, ◌||◌, List, [], ◌∷◌, ◌++◌, ◌==◌, any, find, retain, Option, none, some,
  if◌then◌else◌,
}
use pipitor.Base.Int.{ℤ}
use pipitor.Websub.Callback.{Library}
use pipitor.Websub.Address.{Uri, make_callback}
use pipitor.Websub.Store.{Db, Subscription, delete_subscriptions}
use pipitor.Websub.Hub.{Form, Request, Outcome, done, crashed, panic, starved, after, ◌>>=◌}
use pipitor.Websub.Hub

-- A row of the left outer join with the active subscriptions, of which an id has one at most.
unfoldable pub expires_at : ℕ → Db → Option ℤ
expires_at id d = elim (find (λ a. a.id == id) d.active) [
  | none ↦ none
  | some a ↦ some a.expires_at
]

module _ (decimal : ℕ → List ℕ) (signed : ℤ → List ℕ) (bytes : String → List ℕ) where
  -- What `list` prints of a row: the fields, with tabs between them.
  unfoldable pub print_row : Bool → Subscription → Option ℤ → List ℕ
  print_row show_secrets s expires =
      decimal s.id
      ++ b'\t' ∷ []
      ++ bytes s.hub
      ++ b'\t' ∷ []
      ++ bytes s.topic
      ++ b'\t' ∷ []
      ++ (if show_secrets then s.secret else [])
      ++ b'\t' ∷ []
      ++ elim expires as (λ o. List ℕ) [ none ↦ [] | some e ↦ signed e ]

  unfoldable pub print_rows : Bool → List Subscription → Db → List ℕ
  unfolding print_row expires_at
  print_rows show_secrets [] d = []
  print_rows show_secrets (s ∷ rows) d =
      print_row show_secrets s (expires_at s.id d) ++ print_rows show_secrets rows d

  unfoldable pub list : Bool → Db → List ℕ
  unfolding print_rows
  list show_secrets d = print_rows show_secrets d.subscriptions d

pub record Opt : Type 0 where
  pub all : Bool
  pub id : List ℕ

abbrev pub is_selected : Opt → ℕ → Bool
is_selected opt i = opt.all || any (λ j. j == i) opt.id

-- A panic in a transaction leaves the tables as they were, and the requests made in it are dropped
-- before they are sent.
abbrev in_transaction {ℓ} : {A : Type ℓ} → Db → Outcome A → Outcome A
in_transaction d (done a) = done a
in_transaction d (crashed rs d') = crashed [] d
in_transaction d panic = panic
in_transaction d starved = starved

module _ (b : Library) (callback : Uri) where
  unfoldable pub unsubscribe_each : List Subscription → Db → Outcome (List Request × Db)
  unsubscribe_each [] d = done ([], d)
  unsubscribe_each (s ∷ rows) d = do
    (r, d') ← Hub.unsubscribe b callback s.id s.hub s.topic d
    after (r ∷ []) (unsubscribe_each rows d')

  -- `callback` is that of the manifest, as it stands there.
  unfoldable pub unsubscribe : Opt → Db → Outcome (List Request × Db)
  unfolding unsubscribe_each
  unsubscribe opt d =
      in_transaction d (unsubscribe_each (retain (λ s. is_selected opt s.id) d.subscriptions) d)

  -- The request that the hub gets for a subscription.
  abbrev pub unsubscription : Subscription → Request
  unsubscription s = record {
    hub = s.hub;
    form = Form.unsubscribes (make_callback b callback s.id) s.topic;
  }

  -- The tables without some rows.
  abbrev removed : List Subscription → Db → Db
  removed [] d = d
  removed (s ∷ rows) d = removed rows (delete_subscriptions (λ r. r.id == s.id) d)

  abbrev pub has_bad_hub : List Subscription → Bool
  has_bad_hub = any (λ s. not (b.is_uri s.hub))

  abbrev pub selected : Opt → Db → List Subscription
  selected opt d = retain (λ s. is_selected opt s.id) d.subscriptions
