-- ===== src/Tests/Commands.antt =====
-- The theorems on the commands at concrete inputs.
use pipitor.Base.{ℕ, true, false, List, [], ◌∷◌, Option, none, some, ◌≡◌, refl, ◌==◌, if◌then◌else◌}
use pipitor.Base.Int.{ℤ, pos, int_eq}
use pipitor.Base.Ints.{int_in}
use pipitor.App.Core.{Token, has_token}
use pipitor.Websub.Address.{Uri}
use pipitor.Commands.ListSync.{Server, success, twitter_error, synced, is_ok, sync, sync_lem}
use pipitor.Commands.Ipc.{Request, Response, reload}
use pipitor.Commands.Files.{Paths, ipc_path}
use pipitor.Commands.Ctl.{Json, refused, program, main, main-program}
use pipitor.Commands.Ctl
use pipitor.Commands.Run.{
  Operations, Event, requested, signalled, run, TakesFirst, run-TakesFirst, error_response,
}
use pipitor.Commands.Login.{authorized, check_users, login_each, login, login-has_token}
use pipitor.Tests.Application.{token}

-- User 4 cannot be found.
abbrev server : Server
server = record {
  destroy = λ u. true;
  create = λ u. if int_eq u (pos 4) then twitter_error (108 ∷ []) else success;
  not_allowed = 104;
  cannot_find = 108;
}

sync_lem_example :
    (r : List ℤ) × (sync server
        (pos 2 ∷ pos 3 ∷ pos 4 ∷ [])
        (pos 1 ∷ pos 2 ∷ [])
        (pos 1 ∷ pos 2 ∷ [])
      ≡ (synced true, r))
    × (int_in (pos 4) r ≡ false)
unfolding is_ok
sync_lem_example =
    sync_lem server (pos 2 ∷ pos 3 ∷ pos 4 ∷ []) (pos 1 ∷ pos 2 ∷ []) (pos 4) (refl, tt)
      (refl, (refl, tt))

-- An application whose manifests are numbers, of which 0 is refused.
abbrev operations : Operations ℕ ℕ
operations = record {
  reset = λ a. (true, a);
  shutdown = λ a. (true, a);
  replace_manifest = λ m a. if m == 0 then (false, a) else (true, m);
}

abbrev events : List (Event ℕ)
events = requested reload (some 5) ∷ requested reload (some 0) ∷ signalled ∷ []

run-TakesFirst_example : TakesFirst operations events 1 (run operations events 1)
run-TakesFirst_example = run-TakesFirst operations events 1

abbrev entered : Token
entered = record { id = pos 8; identifier = "new"; secret = "new" }

login-has_token_example : has_token (pos 8) (entered ∷ token ∷ []) ≡ true
unfolding login check_users login_each
login-has_token_example =
    login-has_token (λ t. authorized) (pos 7 ∷ pos 8 ∷ []) (token ∷ []) (entered ∷ token ∷ [])
      (some entered ∷ []) (pos 8) refl refl

-- A callback without a slash at its end.
abbrev bare : Uri
bare = record { origin = "https://example.com"; path = b'/' ∷ b'a' ∷ [] }

-- Texts that are the requests and responses themselves.
data Text : Type 0 where
  asks : Request → Text
  answers : Response → Text
  empty : Text

abbrev read_request : Text → Option Request
read_request (asks r) = some r
read_request (answers r) = none
read_request empty = none

abbrev read_response : Text → Option Response
read_response (asks r) = none
read_response (answers r) = some r
read_response empty = none

abbrev json : Json Text
json = record {
  write_request = asks;
  read_request = read_request;
  read_request-write_request = λ r. refl;
  write_response = answers;
  read_response = read_response;
  nothing = empty;
  read_response-nothing = refl;
  read_response-write_response = λ r. refl;
}

-- The path stays as it is under the name that it is given.
abbrev paths : Paths
paths = record {
  file_name = λ path. some path;
  with_file_name = λ path name. name;
  is_json = λ path. false;
  is_dhall = λ path. false;
}

abbrev listening : Ctl.Server Text
listening = record {
  connects = λ path. true;
  writes = true;
  answer = program json operations true (some 0) 1;
}

main-program_example :
    main json paths listening (some (b'a' ∷ [])) reload
    ≡ refused (error_response "failed to reload the manifest")
unfolding ipc_path
main-program_example =
    main-program json operations true paths listening (b'a' ∷ [])
      (b'.' ∷ b'a' ∷ b'.' ∷ b's' ∷ b'o' ∷ b'c' ∷ b'k' ∷ []) reload (some 0) 1 refl refl refl refl
