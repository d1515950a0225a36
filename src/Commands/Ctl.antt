-- ===== src/Commands/Ctl.antt =====
-- src/bin/pipitor/ctl.rs: `pipitor ctl`, and what a running program answers to it. The JSON of requests
-- and responses is that of serde_json, as texts of a type `T`.
use pipitor.Base.{
  ℕ, Bool, true, false, List, [], ◌∷◌, String, Option, none, some, Bool-cases, inl, inr,
  if◌then◌else◌, ◌≡◌, refl,
}
use pipitor.Commands.Ipc.{
  Request, reload, shutdown, Response, default, is_ok, received, forwarded, responded, Handled,
  server,
}
use pipitor.Commands.Run.{
  Operations, requested, error_response, reloaded, run, Answer, awaited, spawned,
}
use pipitor.Commands.Run
use pipitor.Commands.Files.{Paths, ipc_path}

-- What is written is read back.
pub record Json (T : Type 0) : Type 0 where
  pub write_request : Request → T
  pub read_request : T → Option Request
  pub read_request-write_request : (r : Request) → read_request (write_request r) ≡ some r
  pub write_response : Response → T
  pub read_response : T → Option Response
  -- What is read of a connection that ends before the response is written: no response.
  pub nothing : T
  pub read_response-nothing : read_response nothing ≡ none
  pub read_response-write_response : (r : Response) → read_response (write_response r) ≡ some r

-- The socket at a path: whether it can be connected to and written to, and what is read after a request.
pub record Server (T : Type 0) : Type 0 where
  pub connects : List ℕ → Bool
  pub writes : Bool
  pub answer : T → Option T

-- How the command ends: with a message or without one, or with an error; `panic` is an `unwrap`.
pub data Exit : Type 0 where
  printed : Option String → Exit
  refused : Response → Exit
  no_manifest no_socket no_write no_read no_json panic : Exit

module _ {T : Type 0} (j : Json T) (p : Paths) (s : Server T) where
  abbrev result : Response → Exit
  result r = if is_ok r then printed r.message else refused r

  abbrev read_as : Option Response → Exit
  read_as none = no_json
  read_as (some r) = result r

  abbrev read : Option T → Exit
  read none = no_read
  read (some bytes) = read_as (j.read_response bytes)

  abbrev talk : Request → Exit
  talk r = if s.writes then read (s.answer (j.write_request r)) else no_write

  abbrev at : Request → Option (List ℕ) → Exit
  at r none = panic
  at r (some path) = if s.connects path then talk r else no_socket

  -- The command, with the path of the manifest, if it is found.
  unfoldable pub main : Option (List ℕ) → Request → Exit
  unfolding is_ok
  main none r = no_manifest
  main (some manifest_path) r = at r (ipc_path p manifest_path)

-- `in_time` is whether a spawned task writes its response before the runtime is dropped.
module _ {T A M : Type 0} (j : Json T) (o : Operations A M) (in_time : Bool) where
  -- While the loop runs a spawned task gets to its end.
  abbrev is_written : Run.Exit → Bool
  is_written Run.running = true
  is_written Run.normally = in_time
  is_written Run.with_error = in_time

  abbrev first : Run.Exit → List Answer → Option T
  first exit [] = none
  first exit (awaited r ∷ rs) = some (j.write_response r)
  first exit (spawned r ∷ rs) = some (if is_written exit then j.write_response r else j.nothing)

  -- The answer to what the server has made of a socket.
  abbrev pub answer_to : Option M → A → List Handled → Option T
  answer_to opened a [] = none
  answer_to opened a (responded r ∷ hs) = some (j.write_response r)
  answer_to opened a (forwarded r ∷ hs) =
      let (exit, answers, last) = run o (requested r opened ∷ []) a in first exit answers

  -- What a program in state `a` answers to a text, if opening the manifest gives `opened`.
  unfoldable pub program : Option M → A → T → Option T
  program opened a bytes = answer_to opened a (server (received (j.read_request bytes) ∷ []))

  -- Whether the request succeeds.
  abbrev pub succeeds : Option M → A → Request → Bool
  succeeds opened a reload = (reloaded o opened a).0
  succeeds opened a shutdown = (o.shutdown a).0

  abbrev pub failure : Request → String
  failure reload = "failed to reload the manifest"
  failure shutdown = "error occured during shutdown"

  -- Whether the response to a failure is written.
  abbrev pub is_told : Request → Bool
  is_told reload = in_time
  is_told shutdown = true

  abbrev told : Bool → Request → T
  told true r = j.write_response (error_response (failure r))
  told false r = j.nothing

  program-request :
      (opened : Option M) (a : A) (r : Request)
      → program opened a (j.write_request r)
        ≡ some (if succeeds opened a r then j.write_response default else told (is_told r) r)
  unfolding program server run
  program-request opened a reload = elim (Bool-cases (reloaded o opened a).0) [
    | inl e ↦ rw (j.read_request-write_request reload, e) refl
    | inr e ↦ elim (Bool-cases in_time) [
      | inl t ↦ rw (j.read_request-write_request reload, e, t) refl
      | inr t ↦ rw (j.read_request-write_request reload, e, t) refl
    ]
  ]
  program-request opened a shutdown = elim (Bool-cases (o.shutdown a).0) [
    | inl e ↦ rw (j.read_request-write_request shutdown, e) refl
    | inr e ↦ rw (j.read_request-write_request shutdown, e) refl
  ]

  -- How the command ends if the program cannot do what it was asked for.
  abbrev pub failed : Bool → Request → Exit
  failed true r = refused (error_response (failure r))
  failed false r = no_json

  -- Connected to a program that takes its request next, the command prints nothing and succeeds if the
  -- program could do what it was asked for. Else it fails: with the program's message, but if the task
  -- with the response to a failed reload is not in time, because it has read no response.
  pub main-program :
      (p : Paths) (s : Server T) (manifest_path path : List ℕ) (r : Request) (opened : Option M)
      (a : A)
      → ipc_path p manifest_path ≡ some path
      → s.connects path ≡ true
      → s.writes ≡ true
      → s.answer ≡ program opened a
      → main j p s (some manifest_path) r
        ≡ (if succeeds opened a r then printed none else failed (is_told r) r)
  unfolding main is_ok
  main-program p s manifest_path path r opened a e c w h = elim (Bool-cases (succeeds opened a r)) [
    | inl k ↦
        rw (e, c, w, h, program-request opened a r, k, j.read_response-write_response default) refl
    | inr k ↦ elim (Bool-cases (is_told r)) [
      | inl t ↦
          rw
            (
              e,
              c,
              w,
              h,
              program-request opened a r,
              k,
              t,
              j.read_response-write_response (error_response (failure r)),
            )
            refl
      | inr t ↦ rw (e, c, w, h, program-request opened a r, k, t, j.read_response-nothing) refl
    ]
  ]
