-- ===== src/Http/OAuth/Registrar.antt =====
-- The one client of the gateway: crates/platform/src/http/registrar.rs.
use brain.Base.{String, Option, ◌&&◌, ◌==◌, if◌then◌else◌}
use brain.Base.Result
use brain.Base.Result.{Result, ok, err, ◌>>=◌}
use brain.Http.Auth.{constant_time_eq}

-- The secret and a passphrase are byte strings in the source; they are texts here.
pub record GatewayRegistrar (Scope : Type 0) : Type 0 where
  pub client_id : String
  pub client_secret : String
  pub default_scope : Scope

-- `RegistrarError::Unspecified`
pub data RegistrarError : Type 0 where
  unspecified : RegistrarError

pub record BoundClient : Type 0 where
  pub client_id : String
  pub redirect_uri : String

pub record PreGrant (Scope : Type 0) : Type 0 where
  pub client_id : String
  pub redirect_uri : String
  pub scope : Scope

module _ {Scope : Type 0} (registrar : GatewayRegistrar Scope) where
  unfoldable pub bound_redirect : String → Option String → Result RegistrarError BoundClient
  bound_redirect client_id redirect_uri =
      if client_id == registrar.client_id
      then Result.ok_or unspecified redirect_uri
        >>= (λ uri. ok (record { client_id = client_id; redirect_uri = uri }))
      else err unspecified

  -- The scope that the client asks for is not read.
  unfoldable pub negotiate : BoundClient → Option Scope → Result RegistrarError (PreGrant Scope)
  negotiate bound scope = ok (record {
    client_id = bound.client_id;
    redirect_uri = bound.redirect_uri;
    scope = registrar.default_scope;
  })

  unfoldable pub check : String → Option String → Result RegistrarError Unit
  unfolding constant_time_eq
  check client_id passphrase = do
    provided_secret ← Result.ok_or unspecified passphrase
    (if constant_time_eq registrar.client_id client_id
          && constant_time_eq registrar.client_secret provided_secret
        then ok tt
        else err unspecified)
