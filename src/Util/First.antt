-- ===== src/Util/First.antt =====
-- src/util/first.rs: the future that is ready as soon as one of two is, and `merge_select` of
-- src/bin/pipitor/common.rs.
use pipitor.Base.{ℕ, zero, suc, Option, none, some, ◌≡◌, refl, ap}

-- A future: its states, and a poll, which is pending with `none`.
pub record Future (A : Type 0) : Type 1 where
  pub State : Type 0
  pub poll : State → Option A × State

pub data Either (A B : Type 0) : Type 0 where
  left : A → Either A B
  right : B → Either A B

module _ {A B : Type 0} (f : Future A) (g : Future B) where
  abbrev Both : Type 0
  Both = f.State × g.State

  abbrev right_of : f.State → Option B × g.State → Option (Either A B) × Both
  right_of s (none, t) = (none, (s, t))
  right_of s (some b, t) = (some (right b), (s, t))

  abbrev left_of : g.State → Option A × f.State → Option (Either A B) × Both
  left_of t (none, s) = right_of s (g.poll t)
  left_of t (some a, s) = (some (left a), (s, t))

  abbrev pub first : Future (Either A B)
  first = record { State = Both; poll = λ st. left_of st.1 (f.poll st.0) }

abbrev pub into_inner : {A : Type 0} → Either A A → A
into_inner (left a) = a
into_inner (right a) = a

abbrev mapped : {A S : Type 0} → Option (Either A A) × S → Option A × S
mapped (none, s) = (none, s)
mapped (some e, s) = (some (into_inner e), s)

abbrev pub merge_select : {A : Type 0} → Future A → Future A → Future A
merge_select f g = record { State = (first f g).State; poll = λ s. mapped ((first f g).poll s) }

-- A future that is ready with `a` at the poll after `n` others.
abbrev pub IsReadyAt : {A : Type 0} → (f : Future A) → ℕ → f.State → A → Type 0
IsReadyAt f zero s a = (f.poll s).0 ≡ some a
IsReadyAt f (suc n) s a = ((f.poll s).0 ≡ none) × IsReadyAt f n (f.poll s).1 a

abbrev pub IsPendingFor : {A : Type 0} → (f : Future A) → ℕ → f.State → Type 0
IsPendingFor f zero s = Unit {0}
IsPendingFor f (suc n) s = ((f.poll s).0 ≡ none) × IsPendingFor f n (f.poll s).1

split : {A S : Type 0} (r : Option A × S) {o : Option A} → r.0 ≡ o → r ≡ (o, r.1)
split r e = ap (λ x. (x, r.1)) e

module _ {A : Type 0} (f g : Future A) where
  -- The signal that comes first is the one that is taken, and the first of the two if both come at once.
  pub merge_select-left :
      (n : ℕ) (s : f.State) (t : g.State) (a : A)
      → IsReadyAt f n s a
      → IsPendingFor g n t
      → IsReadyAt (merge_select f g) n (s, t) a
  merge_select-left zero s t a h k = rw (split (f.poll s) h) refl
  merge_select-left (suc n) s t a h k =
      rw (split (f.poll s) h.0, split (g.poll t) k.0)
        (refl, merge_select-left n (f.poll s).1 (g.poll t).1 a h.1 k.1)

  pub merge_select-right :
      (n : ℕ) (s : f.State) (t : g.State) (a : A)
      → IsPendingFor f (suc n) s
      → IsReadyAt g n t a
      → IsReadyAt (merge_select f g) n (s, t) a
  merge_select-right zero s t a h k = rw (split (f.poll s) h.0, split (g.poll t) k) refl
  merge_select-right (suc n) s t a h k =
      rw (split (f.poll s) h.0, split (g.poll t) k.0)
        (refl, merge_select-right n (f.poll s).1 (g.poll t).1 a h.1 k.1)
