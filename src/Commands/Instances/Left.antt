-- ===== src/Commands/Instances/Left.antt =====
-- A socket file that its program has left behind.
use pipitor.Base.{
  ℕ, Bool, true, false, List, [], ◌∷◌, ◌==◌, ==_iff, Option, none, some, ◌≡◌, refl, ap, Bool-cases,
  inl, inr, subst, ◌&&◌,
}
use pipitor.Commands.Instances.{
  Phase, waiting, locked, prepared, bound, alone, cleaned, ended, dead, Move, goes, dies, System,
  start, is_none, to, go, die, step, run_all, is_bound,
}
use pipitor.Commands.Instances.Exclusive.{
  is_past, IsInOrder, step-IsInOrder, run_all-IsInOrder, start-IsInOrder,
}

-- Past the attempt to bind, and without a socket.
abbrev IsDone : Phase → Type 0
IsDone ph = (is_past ph ≡ true) × (is_bound ph ≡ false)

-- The file of a program that does not serve.
abbrev IsLeft : ℕ → System → Type 0
IsLeft p s = (s.socket ≡ some p) × IsDone (s.phase p)

module _ (p q : ℕ) (new : Phase) (s : System) (holder : Option ℕ) (l : IsLeft p s) where
  stays : (IsDone (s.phase q) → IsDone new) → IsLeft p (to q new (record s { holder = holder }))
  stays d = (
    l.0,
    elim (Bool-cases (p == q)) [
      | inl e ↦
          rw e (d (let same : p ≡ q = (==_iff p q).0 e in subst (λ x. IsDone (s.phase x)) same l.1))
      | inr e ↦ rw e l.1
    ],
  )

go-IsLeft :
    (ok : Bool) (ph : Phase) (s : System) (p q : ℕ)
    → s.phase q ≡ ph
    → IsInOrder s
    → IsLeft p s
    → IsLeft p (go ok ph q s)
unfolding go is_bound is_past
go-IsLeft ok waiting s p q e o l = elim (Bool-cases (ok && is_none s.holder)) [
  | inl y ↦ rw y (stays p q locked s (some q) l (λ d. absurd (cc (e, d.0))))
  | inr n ↦ rw n (stays p q ended s s.holder l (λ _. (refl, refl)))
]
go-IsLeft true locked s p q e o l = stays p q prepared s s.holder l (λ d. absurd (cc (e, d.0)))
go-IsLeft false locked s p q e o l = stays p q ended s none l (λ _. (refl, refl))
go-IsLeft true prepared s p q e o l =
    rw (ap is_none l.0) (stays p q alone s s.holder l (λ _. (refl, refl)))
go-IsLeft false prepared s p q e o l = stays p q alone s s.holder l (λ _. (refl, refl))
go-IsLeft ok bound s p q e o l =
    let own : s.socket ≡ some q = o.serving q (rw e refl) in
    let same : p ≡ q = cc (own, l.0) in absurd (cc (e, same, l.1.1))
go-IsLeft ok alone s p q e o l = stays p q cleaned s s.holder l (λ _. (refl, refl))
go-IsLeft ok cleaned s p q e o l = stays p q ended s none l (λ _. (refl, refl))
go-IsLeft ok ended s p q e o l = l
go-IsLeft ok dead s p q e o l = l

die-IsLeft : (ph : Phase) (s : System) (p q : ℕ) → IsLeft p s → IsLeft p (die ph q s)
unfolding die is_bound is_past
die-IsLeft waiting s p q l = stays p q dead s s.holder l (λ _. (refl, refl))
die-IsLeft locked s p q l = stays p q dead s none l (λ _. (refl, refl))
die-IsLeft prepared s p q l = stays p q dead s none l (λ _. (refl, refl))
die-IsLeft bound s p q l = stays p q dead s none l (λ _. (refl, refl))
die-IsLeft alone s p q l = stays p q dead s none l (λ _. (refl, refl))
die-IsLeft cleaned s p q l = stays p q dead s none l (λ _. (refl, refl))
die-IsLeft ended s p q l = l
die-IsLeft dead s p q l = l

step-IsLeft : (p q : ℕ) (m : Move) (s : System) → IsInOrder s → IsLeft p s → IsLeft p (step q m s)
unfolding step
step-IsLeft p q (goes ok) s o l = go-IsLeft ok (s.phase q) s p q refl o l
step-IsLeft p q dies s o l = die-IsLeft (s.phase q) s p q l

run_all-IsLeft :
    (moves : List (ℕ × Move)) (p : ℕ) (s : System)
    → IsInOrder s
    → IsLeft p s
    → IsLeft p (run_all moves s)
unfolding run_all
run_all-IsLeft [] p s o l = l
run_all-IsLeft ((q, m) ∷ moves) p s o l =
    run_all-IsLeft moves p (step q m s) (step-IsInOrder q m s o) (step-IsLeft p q m s o l)

-- Once the file of the socket is there and the program that has made it does not serve, as after a kill,
-- the file stays, and no program serves requests any more.
pub run_all-left :
    (before after : List (ℕ × Move)) (p q : ℕ)
    → (run_all before start).socket ≡ some p
    → is_bound ((run_all before start).phase p) ≡ false
    → ((run_all after (run_all before start)).socket ≡ some p)
      × (is_bound ((run_all after (run_all before start)).phase q) ≡ false)
run_all-left before after p q h n =
    let s = run_all before start in
    let o = run_all-IsInOrder before start start-IsInOrder in
    let l = run_all-IsLeft after p s o (h, (o.made p h, n)) in
    let o' = run_all-IsInOrder after s o in
    (
      l.0,
      elim (Bool-cases (is_bound ((run_all after s).phase q))) [
        | inr e ↦ e
        | inl e ↦ let same : p ≡ q = cc (l.0, o'.serving q e) in absurd (cc (e, same, l.1.1))
      ],
    )
