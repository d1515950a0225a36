-- ===== src/Tests/Data.antt =====
-- Concrete parameters and states.
use pipitor.Base.{
  not, str_eq, ℕ, ◌+◌, ◌/◌, ◌<◌, suc, List, [], ◌∷◌, ◌++◌, ltb, if◌then◌else◌, All, length,
  length-append, replicate, some, ◌≡◌, refl, ap, arith, append-nil, append_assoc, zero,
}
use pipitor.Websub.Callback.{Library}
use pipitor.Websub.Address.{Uri}
use pipitor.Websub.Store.{Db, Subscription, IsValid}
use pipitor.Websub.Hub.{Rng}
use pipitor.Base.Int.{pos}
use pipitor.Websub.Service.Call.{Mac}

-- An encoding of the right length: the bytes, and as many signs that are no bytes as it takes.
abbrev digits : List ℕ → List ℕ
digits [] = []
digits (x ∷ xs) = if ltb x 256 then x ∷ digits xs else []

digits-replicate : (n : ℕ) → digits (replicate n 256) ≡ []
digits-replicate zero = refl
digits-replicate (suc n) = refl

pub digits-append :
    (bs : List ℕ) (n : ℕ) → All (λ b. b < 256) bs → digits (bs ++ replicate n 256) ≡ bs
digits-append [] n h = digits-replicate n
digits-append (b ∷ bs) n h = ground (arith, digits-append bs n h.1)

pub length-replicate : (n : ℕ) → length {A = ℕ} (replicate n 256) ≡ n
length-replicate zero = refl
length-replicate (suc n) = omega (arith, length-replicate n)

abbrev pub padded : Library
padded = record {
  is_uri = λ u. not (str_eq u "");
  encode = λ bs. bs ++ replicate ((length bs + 2) / 3) 256;
  decode = λ text. some (digits text);
  decode-encode = λ bs h. ap some (digits-append bs ((length bs + 2) / 3) h);
  length-encode = λ bs. omega (
    arith,
    length-append bs (replicate ((length bs + 2) / 3) 256),
    length-replicate ((length bs + 2) / 3),
  );
}

abbrev pub callback : Uri
callback = record { origin = "https://example.com"; path = b'/' ∷ [] }

-- A subscription 1 that waits, and an active one 2 that expires at 1000.
abbrev pub waiting_row : Subscription
waiting_row = record { id = 1; hub = "https://hub"; topic = "https://topic"; secret = 7 ∷ [] }

abbrev pub active_row : Subscription
active_row = record { id = 2; hub = "https://hub"; topic = "https://feed"; secret = 8 ∷ [] }

abbrev pub db : Db
db = record {
  subscriptions = waiting_row ∷ active_row ∷ [];
  active = record { id = 2; expires_at = pos 1000 } ∷ [];
  pending = 1 ∷ [];
  renewing = [];
}

pub db-IsValid : IsValid db
db-IsValid = record {
  subs_unique = (refl, (refl, tt));
  active_unique = (refl, tt);
  pending_unique = (refl, tt);
  old_unique = tt;
  new_unique = tt;
  covered = λ i. ground arith;
  disjoint = λ i. ground arith;
  linked = tt;
}

-- The first draw is taken.
abbrev pub rng : Rng
rng = record { bytes = 1 ∷ 2 ∷ []; u64s = 5 ∷ 20 ∷ [] }

-- A code that is the secret and the content.
abbrev pub concatenation : Mac
concatenation = record {
  State = List ℕ;
  start = λ k. k;
  update = λ s x. s ++ x;
  finalize = λ s. s;
  update-nil = λ s. append-nil s;
  update-update = λ s x y. append_assoc s x y;
}
