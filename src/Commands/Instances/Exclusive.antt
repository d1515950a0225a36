-- ===== src/Commands/Instances/Exclusive.antt =====
-- What holds of the programs of one manifest whatever the order of their moves.
use pipitor.Base.{
  ℕ, Bool, true, false, List, [], ◌∷◌, ◌==◌, ==_iff, Option, none, some, ◌≡◌, refl, sym, ap, ◌∙◌,
  Bool-cases, Option-cases, inl, inr,
}
use pipitor.Commands.Instances.{
  Phase, waiting, locked, prepared, bound, alone, cleaned, ended, dead, Move, goes, dies, System,
  start, is_none, to, unlocked, go, die, step, run_all, is_inside, is_bound,
}

-- Not before the attempt to bind.
unfoldable pub is_past : Phase → Bool
is_past waiting = false
is_past locked = false
is_past prepared = false
is_past bound = true
is_past alone = true
is_past cleaned = true
is_past ended = true
is_past dead = true

-- A program past the lock holds it, a program in the loop with a socket has made the file, and who has made
-- the file has been there.
pub record IsInOrder (s : System) : Type 0 where
  pub inside : (p : ℕ) → is_inside (s.phase p) ≡ true → s.holder ≡ some p
  pub serving : (p : ℕ) → is_bound (s.phase p) ≡ true → s.socket ≡ some p
  pub made : (p : ℕ) → s.socket ≡ some p → is_past (s.phase p) ≡ true

is_bound-inside : (ph : Phase) → is_bound ph ≡ true → is_inside ph ≡ true
unfolding is_bound is_inside
is_bound-inside bound h = refl
is_bound-inside waiting h = h
is_bound-inside locked h = refl
is_bound-inside prepared h = refl
is_bound-inside alone h = refl
is_bound-inside cleaned h = refl
is_bound-inside ended h = h
is_bound-inside dead h = h

-- Two programs that are the same one are not two.
distinct : {p q : ℕ} {o : Option ℕ} {A : Type 0} → (q == p) ≡ false → o ≡ some p → o ≡ some q → A
distinct {p} {q} e h k = let same : q ≡ p = cc (h, k) in absurd (cc (e, (==_iff q p).1 same))

module _ (s : System) (p : ℕ) (new : Phase) (holder socket : Option ℕ) where
  -- One program goes on, with what that changes for it and for the others.
  moved :
      (is_inside new ≡ true → holder ≡ some p)
      → (is_bound new ≡ true → socket ≡ some p)
      → (socket ≡ some p → is_past new ≡ true)
      → ((q : ℕ) → (q == p) ≡ false → is_inside (s.phase q) ≡ true → holder ≡ some q)
      → ((q : ℕ) → (q == p) ≡ false → is_bound (s.phase q) ≡ true → socket ≡ some q)
      → ((q : ℕ) → (q == p) ≡ false → socket ≡ some q → is_past (s.phase q) ≡ true)
      → IsInOrder (to p new (record s { holder = holder; socket = socket }))
  moved i b t i' b' t' = record {
    inside = λ q h. elim (Bool-cases (q == p)) [
      | inl e ↦ i (rw e at h) ∙ ap some (sym ((==_iff q p).0 e))
      | inr e ↦ i' q e (rw e at h)
    ];
    serving = λ q h. elim (Bool-cases (q == p)) [
      | inl e ↦ b (rw e at h) ∙ ap some (sym ((==_iff q p).0 e))
      | inr e ↦ b' q e (rw e at h)
    ];
    made = λ q h. elim (Bool-cases (q == p)) [
      | inl e ↦ rw e (t (h ∙ ap some ((==_iff q p).0 e)))
      | inr e ↦ rw e (t' q e h)
    ];
  }

module _ (s : System) (o : IsInOrder s) (p : ℕ) (new : Phase) where
  -- With the lock and the socket as they were.
  keeps :
      (is_inside new ≡ true → s.holder ≡ some p)
      → is_bound new ≡ false
      → (is_past (s.phase p) ≡ true → is_past new ≡ true)
      → IsInOrder (to p new s)
  keeps i b t =
      moved s p new s.holder s.socket i (λ h. absurd (cc (b, h))) (λ h. t (o.made p h))
        (λ q _. o.inside q) (λ q _. o.serving q) (λ q _. o.made q)

  releases :
      is_inside (s.phase p) ≡ true
      → is_inside new ≡ false
      → (is_past (s.phase p) ≡ true → is_past new ≡ true)
      → IsInOrder (to p new (unlocked s))
  releases h n t =
      moved s p new none s.socket (λ k. absurd (cc (n, k)))
        (λ k. absurd (cc (n, is_bound-inside new k))) (λ k. t (o.made p k))
        (λ q e k. distinct e (o.inside p h) (o.inside q k)) (λ q _. o.serving q) (λ q _. o.made q)

locks :
    (s : System) (p : ℕ)
    → IsInOrder s
    → s.holder ≡ none
    → is_past (s.phase p) ≡ false
    → IsInOrder (to p locked (record s { holder = some p }))
unfolding is_bound
locks s p o free n =
    moved s p locked (some p) s.socket (λ _. refl) (λ h. absurd (cc h))
      (λ h. absurd (cc (n, o.made p h))) (λ q _ k. absurd (cc (free, o.inside q k)))
      (λ q _. o.serving q) (λ q _. o.made q)

binds :
    (s : System) (p : ℕ)
    → IsInOrder s
    → s.socket ≡ none
    → is_inside (s.phase p) ≡ true
    → IsInOrder (to p bound (record s { socket = some p }))
unfolding is_past
binds s p o free h =
    moved s p bound s.holder (some p) (λ _. o.inside p h) (λ _. refl) (λ _. refl)
      (λ q _. o.inside q) (λ q _ k. absurd (cc (free, o.serving q k)))
      (λ q e k. distinct {o = some p} e refl k)

-- The guard of a program removes the file that the program has made.
removes :
    (s : System) (p : ℕ)
    → IsInOrder s
    → is_bound (s.phase p) ≡ true
    → IsInOrder (to p cleaned (record s { socket = none }))
unfolding is_bound
removes s p o h =
    moved s p cleaned s.holder none (λ _. o.inside p (is_bound-inside (s.phase p) h))
      (λ k. absurd (cc k)) (λ k. absurd (cc k)) (λ q _. o.inside q)
      (λ q e k. distinct e (o.serving p h) (o.serving q k)) (λ q _ k. absurd (cc k))

go-IsInOrder :
    (ok : Bool) (ph : Phase) (s : System) (p : ℕ)
    → s.phase p ≡ ph
    → IsInOrder s
    → IsInOrder (go ok ph p s)
unfolding go is_inside is_bound is_past
go-IsInOrder ok waiting s p e o = elim (Bool-cases ok) [
  | inr n ↦ rw n (keeps s o p ended (λ h. absurd (cc h)) refl (λ _. refl))
  | inl y ↦ elim (Option-cases s.holder) [
    | inl free ↦ rw (y, free) (locks s p o free (rw e refl))
    | inr (q, taken) ↦
        rw (y, ap is_none taken) (keeps s o p ended (λ h. absurd (cc h)) refl (λ _. refl))
  ]
]
go-IsInOrder true locked s p e o =
    keeps s o p prepared (λ _. o.inside p (rw e refl)) refl (rw e (λ h. h))
go-IsInOrder false locked s p e o = releases s o p ended (rw e refl) refl (λ _. refl)
go-IsInOrder ok prepared s p e o = elim (Bool-cases ok) [
  | inr n ↦ rw n (keeps s o p alone (λ _. o.inside p (rw e refl)) refl (λ _. refl))
  | inl y ↦ elim (Option-cases s.socket) [
    | inl free ↦ rw (y, free) (binds s p o free (rw e refl))
    | inr (q, taken) ↦
        rw (y, ap is_none taken) (keeps s o p alone (λ _. o.inside p (rw e refl)) refl (λ _. refl))
  ]
]
go-IsInOrder true bound s p e o = removes s p o (rw e refl)
go-IsInOrder false bound s p e o =
    keeps s o p cleaned (λ _. o.inside p (rw e refl)) refl (λ _. refl)
go-IsInOrder ok alone s p e o = keeps s o p cleaned (λ _. o.inside p (rw e refl)) refl (λ _. refl)
go-IsInOrder ok cleaned s p e o = releases s o p ended (rw e refl) refl (λ _. refl)
go-IsInOrder ok ended s p e o = o
go-IsInOrder ok dead s p e o = o

die-IsInOrder :
    (ph : Phase) (s : System) (p : ℕ) → s.phase p ≡ ph → IsInOrder s → IsInOrder (die ph p s)
unfolding die is_inside is_bound is_past
die-IsInOrder waiting s p e o = keeps s o p dead (λ h. absurd (cc h)) refl (λ _. refl)
die-IsInOrder locked s p e o = releases s o p dead (rw e refl) refl (λ _. refl)
die-IsInOrder prepared s p e o = releases s o p dead (rw e refl) refl (λ _. refl)
die-IsInOrder bound s p e o = releases s o p dead (rw e refl) refl (λ _. refl)
die-IsInOrder alone s p e o = releases s o p dead (rw e refl) refl (λ _. refl)
die-IsInOrder cleaned s p e o = releases s o p dead (rw e refl) refl (λ _. refl)
die-IsInOrder ended s p e o = o
die-IsInOrder dead s p e o = o

pub step-IsInOrder : (p : ℕ) (m : Move) (s : System) → IsInOrder s → IsInOrder (step p m s)
unfolding step
step-IsInOrder p (goes ok) s o = go-IsInOrder ok (s.phase p) s p refl o
step-IsInOrder p dies s o = die-IsInOrder (s.phase p) s p refl o

pub run_all-IsInOrder :
    (moves : List (ℕ × Move)) (s : System) → IsInOrder s → IsInOrder (run_all moves s)
unfolding run_all
run_all-IsInOrder [] s o = o
run_all-IsInOrder ((p, m) ∷ moves) s o =
    run_all-IsInOrder moves (step p m s) (step-IsInOrder p m s o)

pub start-IsInOrder : IsInOrder start
unfolding is_inside is_bound
start-IsInOrder = record {
  inside = λ p h. absurd (cc h);
  serving = λ p h. absurd (cc h);
  made = λ p h. absurd (cc h);
}

-- Whatever the programs do, and whichever of them are killed, at most one is between the lock and its end,
-- and a program in the loop with a socket finds its own at the path: no other program has removed it.
pub run_all-exclusive :
    (moves : List (ℕ × Move)) (p q : ℕ)
    → is_inside ((run_all moves start).phase p) ≡ true
    → (is_inside ((run_all moves start).phase q) ≡ true → q ≡ p)
      × (is_bound ((run_all moves start).phase p) ≡ true → (run_all moves start).socket ≡ some p)
run_all-exclusive moves p q h =
    let o = run_all-IsInOrder moves start start-IsInOrder in
    (λ k. cc (o.inside p h, o.inside q k), o.serving p)
