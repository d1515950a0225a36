-- ===== src/Commands/Ipc.antt =====
-- src/bin/pipitor/common/ipc.rs: the requests between `pipitor ctl` and a running program.
use pipitor.Base.{String, Bool, true, false, List, [], ◌∷◌, Option, none, some}

pub data Request : Type 0 where
  reload shutdown : Request

pub data ResponseCode : Type 0 where
  success internal_error request_unrecognized : ResponseCode

pub record Response : Type 0 where
  pub message : Option String
  pub code : ResponseCode

-- `Response::default`.
abbrev pub default : Response
default = record { message = none; code = success }

unfoldable pub as_str : ResponseCode → String
as_str success = "SUCCESS"
as_str internal_error = "INTERNAL_ERROR"
as_str request_unrecognized = "REQUEST_UNRECOGNIZED"

-- `Display`.
unfoldable pub show : Response → String
unfolding as_str
show r = elim r.message [ none ↦ as_str r.code | some msg ↦ msg ]

-- `Response::result`: `inl` of an `Ok`.
unfoldable pub is_ok : Response → Bool
is_ok r = elim r.code [ success ↦ true | internal_error ↦ false | request_unrecognized ↦ false ]

-- What the listener accepts: an error, a socket that cannot be read, or what a socket has sent, which
-- `none` says is no request in JSON.
pub data Accepted : Type 0 where
  accept_error read_error : Accepted
  received : Option Request → Accepted

-- What the server does with a socket: a request goes to the main loop, with the socket.
pub data Handled : Type 0 where
  forwarded : Request → Handled
  responded : Response → Handled

-- The loop of `server_`, while the main loop has the receiver.
unfoldable pub server : List Accepted → List Handled
server [] = []
server (accept_error ∷ rest) = server rest
server (read_error ∷ rest) = server rest
server (received none ∷ rest) =
    responded (record { message = some "request unrecognized"; code = request_unrecognized })
    ∷ server rest
server (received (some r) ∷ rest) = forwarded r ∷ server rest
