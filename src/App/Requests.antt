-- ===== src/App/Requests.antt =====
-- src/app/twitter_request_ext.rs: a request to Twitter in the name of a user.
pub mod Routed
use pipitor.Base.{String, Option}
use pipitor.Base.Int.{ℤ}
use pipitor.App.Core.{Core, Token, Try, ok, ◌>>=◌, unwrap, twitter_token}

-- A request with the client and the token that sign it.
pub record Signed (Q : Type 0) : Type 0 where
  pub client : String
  pub token : Token
  pub request : Q

-- `TwitterRequestExt::send`, by the user or else the manifest's own.
unfoldable pub send : {R Q : Type 0} → Core R → Option ℤ → Q → Try (Signed Q)
unfolding unwrap
send c user q = do
  (client, token) ← unwrap (twitter_token c user)
  ok (record { client = client; token = token; request = q })
