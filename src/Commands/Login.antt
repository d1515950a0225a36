-- ===== src/Commands/Login.antt =====
-- src/bin/pipitor/twitter_login.rs: the tokens of the users of the manifest, of whom each has to log in
-- whose token is missing or no longer authorized.
use pipitor.Base.{
  true, false, not, List, [], ◌∷◌, retain, Option, none, some, if◌then◌else◌, ◌≡◌, refl, subst,
  arith, ◌||◌, ◌⊎◌, Bool-cases, inl, inr,
}
use pipitor.Base.Int.{ℤ, int_eq, int_eq_iff}
use pipitor.Base.Ints.{int_in, int_set, without, int_in-retain}
use pipitor.Manifest.{Manifest}
use pipitor.App.Core.{Token, find_token, has_token, users}

-- How `account/verify_credentials` ends.
pub data Verified : Type 0 where
  authorized unauthorized failed : Verified

pub data Checked : Type 0 where
  -- The users that have to log in.
  unauthed : List ℤ → Checked
  error : Checked

abbrev pub prepend : ℤ → Checked → Checked
prepend u (unauthed us) = unauthed (u ∷ us)
prepend u error = error

-- Without a token a user is not asked about.
abbrev pub status : (Token → Verified) → Option Token → Verified
status verify none = unauthorized
status verify (some t) = verify t

-- A user, before the others.
abbrev with_status : Verified → ℤ → Checked → Checked
with_status authorized u rest = rest
with_status unauthorized u rest = prepend u rest
with_status failed u rest = error

-- `unauthed_users`: the first error ends it.
unfoldable pub check_users : (Token → Verified) → List Token → List ℤ → Checked
check_users verify rows [] = unauthed []
check_users verify rows (u ∷ us) =
    with_status (status verify (find_token u rows)) u (check_users verify rows us)

-- `replace_into`.
abbrev pub replace : Token → List Token → List Token
replace t rows = t ∷ retain (λ r. not (int_eq r.id t.id)) rows

pub data Login : Type 0 where
  logged_in : List Token → Login
  -- Users that still have to log in when the input ends here.
  waiting : List ℤ → List Token → Login
  aborted : List Token → Login

-- The loop over the tokens that Twitter gives for what is entered, of which `none` is an error.
unfoldable pub login_each : List (Option Token) → List ℤ → List Token → Login
login_each entered [] rows = logged_in rows
login_each [] (u ∷ us) rows = waiting (u ∷ us) rows
login_each (none ∷ entered) (u ∷ us) rows = aborted rows
login_each (some t ∷ entered) (u ∷ us) rows =
    if int_in t.id (u ∷ us)
    then login_each entered (without t.id (u ∷ us)) (replace t rows)
    else login_each entered (u ∷ us) rows

abbrev then_login : Checked → List Token → List (Option Token) → Login
then_login error rows entered = aborted rows
then_login (unauthed missing) rows entered = login_each entered missing rows

unfoldable pub login : (Token → Verified) → List ℤ → List Token → List (Option Token) → Login
unfolding check_users login_each
login verify us rows entered = then_login (check_users verify rows us) rows entered

-- `main`, with the users of the outboxes and the manifest's own; `none` without `twitter` in the
-- manifest.
unfoldable pub main :
    {R : Type 0} → Manifest R → (Token → Verified) → List Token → List (Option Token) → Option Login
unfolding login
main m verify rows entered = elim m.twitter [
  | none ↦ none
  | some config ↦ some (login verify (int_set (users m config)) rows entered)
]

has_token-retain :
    (u i : ℤ) (rows : List Token)
    → int_eq i u ≡ false
    → has_token u (retain (λ r. not (int_eq r.id i)) rows) ≡ has_token u rows
has_token-retain u i [] ne = refl
has_token-retain u i (r ∷ rows) ne =
    ground
      (arith, has_token-retain u i rows ne, int_eq_iff r.id i, int_eq_iff r.id u, int_eq_iff i u)

has_token-replace :
    (u : ℤ) (t : Token) (rows : List Token)
    → has_token u (replace t rows) ≡ (int_eq t.id u || has_token u rows)
has_token-replace u t rows = elim (Bool-cases (int_eq t.id u)) [
  | inl e ↦ rw e refl
  | inr e ↦ rw e (has_token-retain u t.id rows e)
]

int_in-without :
    (u i : ℤ) (us : List ℤ) → int_eq i u ≡ false → int_in u (without i us) ≡ int_in u us
int_in-without u i us ne =
    ground (arith, int_in-retain u (λ x. not (int_eq x i)) us, int_eq_iff u i, int_eq_iff i u)

still :
    (t : Token) (us : List ℤ) (rows : List Token) (u : ℤ)
    → (has_token u rows || int_in u us) ≡ true
    → (has_token u (replace t rows) || int_in u (without t.id us)) ≡ true
still t us rows u h = elim (Bool-cases (int_eq t.id u)) [
  | inl e ↦ rw (has_token-replace u t rows, e) refl
  | inr e ↦ rw (has_token-replace u t rows, e, int_in-without u t.id us e) h
]

-- Who has a token or is still to log in has a token when the loop is over.
login_each-has_token :
    (entered : List (Option Token)) (us : List ℤ) (rows rows' : List Token) (u : ℤ)
    → (has_token u rows || int_in u us) ≡ true
    → login_each entered us rows ≡ logged_in rows'
    → has_token u rows' ≡ true
unfolding login_each
login_each-has_token entered [] rows rows' u h l =
    let same : rows ≡ rows' = cc l in subst (λ r. has_token u r ≡ true) same (ground (arith, h))
login_each-has_token [] (v ∷ us) rows rows' u h l = absurd (cc l)
login_each-has_token (none ∷ entered) (v ∷ us) rows rows' u h l = absurd (cc l)
login_each-has_token (some t ∷ entered) (v ∷ us) rows rows' u h l =
    elim (Bool-cases (int_in t.id (v ∷ us))) [
      | inl e ↦
          login_each-has_token entered (without t.id (v ∷ us)) (replace t rows) rows' u
            (still t (v ∷ us) rows u h) (rw e at l)
      | inr e ↦ login_each-has_token entered (v ∷ us) rows rows' u h (rw e at l)
    ]

has_token-find_token :
    (u : ℤ) (rows : List Token) {t : Token} → find_token u rows ≡ some t → has_token u rows ≡ true
has_token-find_token u [] h = absurd (cc h)
has_token-find_token u (r ∷ rows) {t} h = ground (arith, has_token-find_token u rows {t = t})

status-authorized :
    (verify : Token → Verified) (o : Option Token)
    → status verify o ≡ authorized
    → (t : Token) × (o ≡ some t)
status-authorized verify none h = absurd (cc h)
status-authorized verify (some t) h = (t, refl)

with_status-unauthed :
    (s : Verified) (u : ℤ) (rest : Checked) (missing : List ℤ)
    → with_status s u rest ≡ unauthed missing
    → (others : List ℤ) × (rest ≡ unauthed others)
      × ((s ≡ authorized) × (missing ≡ others) ⊎ (missing ≡ u ∷ others))
with_status-unauthed authorized u rest missing h = (missing, h, inl (refl, refl))
with_status-unauthed unauthorized u (unauthed us) missing h = (us, refl, inr (cc h))
with_status-unauthed unauthorized u error missing h = absurd (cc h)
with_status-unauthed failed u rest missing h = absurd (cc h)

check_users-has_token :
    (verify : Token → Verified) (rows : List Token) (us missing : List ℤ) (u : ℤ)
    → check_users verify rows us ≡ unauthed missing
    → int_in u us ≡ true
    → (has_token u rows || int_in u missing) ≡ true
unfolding check_users
check_users-has_token verify rows [] missing u h i = absurd (cc i)
check_users-has_token verify rows (v ∷ us) missing u h i =
    let (others, rest, how) =
      with_status-unauthed (status verify (find_token v rows)) v (check_users verify rows us)
        missing h in
    let ih = check_users-has_token verify rows us others u rest in
    elim how [
      | inr e ↦ rw e (ground (arith, i, ih))
      | inl (fine, e) ↦
          let (t, row) = status-authorized verify (find_token v rows) fine in
          let held : has_token v rows ≡ true = has_token-find_token v rows row in
          rw e (elim (Bool-cases (int_eq v u)) [
            | inl same ↦
                subst (λ w. (has_token w rows || int_in u others) ≡ true) ((int_eq_iff v u).0 same)
                  (rw held refl)
            | inr other ↦ ih (rw other at i)
          ])
    ]

Checked-cases : (c : Checked) → (c ≡ error) ⊎ ((us : List ℤ) × (c ≡ unauthed us))
Checked-cases (unauthed us) = inr (us, refl)
Checked-cases error = inl refl

-- A login that ends leaves a token in the table for each of the users.
pub login-has_token :
    (verify : Token → Verified) (us : List ℤ) (rows rows' : List Token)
    (entered : List (Option Token)) (u : ℤ)
    → login verify us rows entered ≡ logged_in rows'
    → int_in u us ≡ true
    → has_token u rows' ≡ true
unfolding login
login-has_token verify us rows rows' entered u h i =
    elim (Checked-cases (check_users verify rows us)) [
      | inl e ↦ absurd (cc (rw e at h))
      | inr (missing, e) ↦
          login_each-has_token entered missing rows rows' u
            (check_users-has_token verify rows us missing u e i) (rw e at h)
    ]
