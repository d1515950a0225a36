-- ===== src/Util/Connections.antt =====
-- src/util/r2d2.rs and the pragmas of src/query.rs: how a connection to the database is made ready. The
-- database is a parameter, with what its documentation says of the pragmas.
use pipitor.Base.{ℕ, Bool, true, Option, some, ◌≡◌, ◌∙◌}
use pipitor.Base.Options.{◌>>=◌, bind-some}

pub data Pragma : Type 0 where
  busy_timeout : ℕ → Pragma
  foreign_keys_on journal_mode_wal : Pragma

module _ {C : Type 0} (execute : Pragma → C → Option C) where
  -- `ConnectionCustomizer::on_acquire`, up to the first error.
  unfoldable pub on_acquire : C → Option C
  on_acquire c = do
    c' ← execute (busy_timeout 5_000) c
    c'' ← execute foreign_keys_on c'
    execute journal_mode_wal c''

  -- A connection of a pool, of which `connect` opens the database.
  unfoldable pub get : Option C → Option C
  unfolding on_acquire
  get connect = do c ← connect; on_acquire c

  -- The connection of src/bin/pipitor/websub.rs.
  unfoldable pub establish : Option C → Option C
  establish connect = do c ← connect; execute foreign_keys_on c

  -- What the pragmas do: one turns the checks of foreign keys on, and the others leave them.
  pub record Pragmas (checks : C → Bool) : Type 0 where
    pub turns_on : (c c' : C) → execute foreign_keys_on c ≡ some c' → checks c' ≡ true
    pub keeps_timeout :
        (n : ℕ) (c c' : C) → execute (busy_timeout n) c ≡ some c' → checks c' ≡ checks c
    pub keeps_journal : (c c' : C) → execute journal_mode_wal c ≡ some c' → checks c' ≡ checks c

  -- Every connection that a pool or the command hands out checks foreign keys, so that the deletion of a
  -- subscription deletes the rows that refer to it.
  pub get-checks :
      (checks : C → Bool)
      → Pragmas checks
      → (connect : Option C) (c : C)
      → (get connect ≡ some c → checks c ≡ true) × (establish connect ≡ some c → checks c ≡ true)
  unfolding get establish
  get-checks checks p connect c = (
    λ h.
        let (opened, _, h1) = bind-some connect on_acquire h in
        let (_, _, h2) = bind-some (execute (busy_timeout 5_000) opened) _ h1 in
        let (on, set, h3) = bind-some _ (execute journal_mode_wal) h2 in
        p.keeps_journal on c h3 ∙ p.turns_on _ on set,
    λ h.
        let (opened, _, h1) = bind-some connect (execute foreign_keys_on) h in
        p.turns_on opened c h1,
  )
