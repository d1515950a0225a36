-- ===== src/Commands/Run.antt =====
-- src/bin/pipitor/run.rs: the main loop of `pipitor run`, and the command of `pipitor ctl`.
use pipitor.Base.{
  Bool, true, false, ◌&&◌, ◌||◌, List, [], ◌∷◌, ◌++◌, str_eq, ap, subst, sym, ◌∙◌, String, Option,
  none, some, if◌then◌else◌, ◌≡◌, refl, arith, Bool-cases, inl, inr,
}
use pipitor.Commands.Ipc.{
  Request, reload, shutdown, Response, success, internal_error, request_unrecognized, default,
}

-- The application: whether a call succeeds, and what it leaves.
pub record Operations (A M : Type 0) : Type 0 where
  pub reset : A → Bool × A
  pub shutdown : A → Bool × A
  pub replace_manifest : M → A → Bool × A

-- What `select!` takes next: the application has ended, with an error or not; a signal; a request, with
-- what opening the manifest gives then.
pub data Event (M : Type 0) : Type 0 where
  ended signalled : Event M
  requested : Request → Option M → Event M

-- How the loop is left.
pub data Exit : Type 0 where
  running normally with_error : Exit

abbrev pub error_response : String → Response
error_response message = record { message = some message; code = internal_error }

-- A response that the loop waits for, or that it leaves to a spawned task.
pub data Answer : Type 0 where
  awaited spawned : Response → Answer

module _ {A M : Type 0} (o : Operations A M) where
  -- A reload, and whether it succeeds.
  abbrev pub reloaded : Option M → A → Bool × A
  reloaded none a = (false, a)
  reloaded (some m) a = o.replace_manifest m a

  -- The loop over the events: how it ends, the answers in order, and the application.
  unfoldable pub run : List (Event M) → A → Exit × List Answer × A
  run [] a = (running, [], a)
  run (ended ∷ events) a =
      let (is_reset, a') = o.reset a in
      let rest = run events a' in if is_reset then rest else (with_error, [], a')
  run (signalled ∷ events) a =
      let (is_shut, a') = o.shutdown a in
      if is_shut then (normally, [], a') else (with_error, [], a')
  run (requested reload opened ∷ events) a =
      let (is_reloaded, a') = reloaded opened a in
      let (exit, responses, last) = run events a' in
      if is_reloaded
      then (exit, spawned default ∷ responses, last)
      else (with_error, spawned (error_response "failed to reload the manifest") ∷ [], a')
  run (requested shutdown opened ∷ events) a =
      let (is_shut, a') = o.shutdown a in
      if is_shut
      then (normally, awaited default ∷ [], a')
      else (with_error, awaited (error_response "error occured during shutdown") ∷ [], a')

abbrev is_error : Exit → Bool
is_error running = false
is_error normally = false
is_error with_error = true

abbrev is_normal : Exit → Bool
is_normal running = false
is_normal normally = true
is_normal with_error = false

abbrev is_none_left : {M : Type 0} → List (Event M) → List Answer → Bool
is_none_left [] [] = true
is_none_left [] (x ∷ xs) = false
is_none_left (e ∷ es) xs = false

abbrev is_some_of : String → Option String → Bool
is_some_of s none = false
is_some_of s (some t) = str_eq t s

abbrev is_failure_of : Response → String → Bool
is_failure_of r message = elim r.code [
  | success ↦ false
  | internal_error ↦ is_some_of message r.message
  | request_unrecognized ↦ false
]

abbrev is_success : Response → Bool
is_success r = elim r.code [
  | success ↦ true
  | internal_error ↦ false
  | request_unrecognized ↦ false
]

-- The answers to the requests among some events, one to each: a success to a reload, from a spawned task,
-- and to a shutdown, which ends the loop; or a failure, which ends it with an error.
unfoldable pub are_answers : {M : Type 0} → Exit → List (Event M) → List Answer → Bool
are_answers exit [] [] = true
are_answers exit [] (x ∷ xs) = false
are_answers exit (ended ∷ events) xs = are_answers exit events xs
are_answers exit (signalled ∷ events) xs = are_answers exit events xs
are_answers exit (requested r opened ∷ events) [] = false
are_answers exit (requested reload opened ∷ events) (awaited x ∷ xs) = false
are_answers exit (requested reload opened ∷ events) (spawned x ∷ xs) =
    (is_success x && are_answers exit events xs)
    || (is_failure_of x "failed to reload the manifest" && is_error exit && is_none_left events xs)
are_answers exit (requested shutdown opened ∷ events) (spawned x ∷ xs) = false
are_answers exit (requested shutdown opened ∷ events) (awaited x ∷ xs) =
    ((is_success x && is_normal exit)
      || (is_failure_of x "error occured during shutdown" && is_error exit))
    && is_none_left events xs

module _ {A M : Type 0} (o : Operations A M) where
  -- Of some events the first ones are taken, which alone lead to an outcome, and have its answers.
  abbrev pub TakesFirst : List (Event M) → A → Exit × List Answer × A → Type 0
  TakesFirst events a r =
      (taken : List (Event M)) × (others : List (Event M)) × (taken ++ others ≡ events)
      × (run o taken a ≡ r)
      × (are_answers r.0 taken r.1 ≡ true)

  run-ended :
      (events : List (Event M)) (a : A)
      → (o.reset a).0 ≡ true
      → run o (ended ∷ events) a ≡ run o events (o.reset a).1
  unfolding run
  run-ended events a e = rw e refl

  abbrev with_success : Exit × List Answer × A → Exit × List Answer × A
  with_success r = (r.0, spawned default ∷ r.1, r.2)

  run-reload :
      (opened : Option M) (events : List (Event M)) (a : A)
      → (reloaded o opened a).0 ≡ true
      → run o (requested reload opened ∷ events) a
        ≡ with_success (run o events (reloaded o opened a).1)
  unfolding run
  run-reload opened events a e = rw e refl

  -- The events that the loop takes are the first ones, and these alone decide what it does; it has one
  -- answer to every request among them, in order: a success, or, to the last one, a failure with which
  -- the loop ends with an error; and it waits for the answers to a shutdown only.
  pub run-TakesFirst : (events : List (Event M)) (a : A) → TakesFirst events a (run o events a)
  unfolding run are_answers
  run-TakesFirst [] a = ([], [], refl, refl, refl)
  run-TakesFirst (ended ∷ events) a = elim (Bool-cases (o.reset a).0) [
    | inl e ↦
        let (taken, others, split, same, tidy) = run-TakesFirst events (o.reset a).1 in
        subst (TakesFirst (ended ∷ events) a) (sym (run-ended events a e)) (
          ended ∷ taken,
          others,
          ap (λ (es : List (Event M)). ended ∷ es) split,
          run-ended taken a e ∙ same,
          tidy,
        )
    | inr e ↦ (ended ∷ [], events, refl, rw e refl, rw e refl)
  ]
  run-TakesFirst (signalled ∷ events) a = elim (Bool-cases (o.shutdown a).0) [
    | inl e ↦ (signalled ∷ [], events, refl, refl, rw e refl)
    | inr e ↦ (signalled ∷ [], events, refl, refl, rw e refl)
  ]
  run-TakesFirst (requested reload opened ∷ events) a = elim (Bool-cases (reloaded o opened a).0) [
    | inl e ↦
        let (taken, others, split, same, tidy) = run-TakesFirst events (reloaded o opened a).1 in
        subst (TakesFirst (requested reload opened ∷ events) a) (sym (run-reload opened events a e))
          (
            requested reload opened ∷ taken,
            others,
            ap (λ (es : List (Event M)). requested reload opened ∷ es) split,
            run-reload opened taken a e ∙ ap with_success same,
            ground (arith, tidy),
          )
    | inr e ↦ (requested reload opened ∷ [], events, refl, rw e refl, rw e refl)
  ]
  run-TakesFirst (requested shutdown opened ∷ events) a = elim (Bool-cases (o.shutdown a).0) [
    | inl e ↦ (requested shutdown opened ∷ [], events, refl, refl, rw e refl)
    | inr e ↦ (requested shutdown opened ∷ [], events, refl, refl, rw e refl)
  ]
