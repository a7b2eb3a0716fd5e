-- ===== src/Http/OAuth/RateLimit.antt =====
-- The rate limit of the OAuth endpoints: crates/platform/src/http/rate_limit.rs.
use brain.Base.{ℕ, String, Option, ltb, nat_eq, if◌then◌else◌}
use brain.Base.Optional.{and_then, get_or, or_else}
use brain.Base.Result
use brain.Base.Result.{Result}
use brain.Base.Text.{break}
use brain.Base.Whitespace.{trim}
use brain.Http.Headers.{HeaderMap, header_text}

-- `IpAddr` with its parsing, and the limiter of the governor crate, whose quota is 20 at once and one
-- more every 45 seconds: a refusal has the whole seconds to wait.
pub record Limiter (W : Type 0) : Type 1 where
  pub Ip : Type 0
  pub parse : String → Option Ip
  pub unspecified : Ip
  pub check_key : Ip → W → Result ℕ Unit × W

module _ {W : Type 0} (limiter : Limiter W) where
  unfoldable pub extract_client_ip : HeaderMap → limiter.Ip
  unfolding trim break
  extract_client_ip headers =
      get_or
        (or_else (and_then (header_text "cf-connecting-ip" headers) λ s. limiter.parse (trim s)) (
          and_then (header_text "x-forwarded-for" headers)
            λ s. limiter.parse (trim (break (λ c. nat_eq c b',') s).0)))
        limiter.unspecified

  -- `.as_secs().max(1)`
  abbrev at_least_one : ℕ → ℕ
  at_least_one secs = if ltb secs 1 then 1 else secs

  unfoldable pub check : HeaderMap → W → Result ℕ Unit × W
  unfolding extract_client_ip
  check headers w =
      let r = limiter.check_key (extract_client_ip headers) w in
      (Result.map_err at_least_one r.0, r.1)
