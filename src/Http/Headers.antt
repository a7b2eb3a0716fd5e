-- ===== src/Http/Headers.antt =====
-- The headers of a request and what the handlers read from them.
use brain.Base.{String, Option, List, ◌==◌, map, find, nat_eq}
use brain.Base.Optional
use brain.Base.Optional.{and_then, get_or, or_else}
use brain.Base.Text.{◌⧺◌, break}
use brain.Domain.{Headers}

-- `HeaderMap`: names in lower case, and values as `to_str().ok()` reads them.
abbrev pub HeaderMap : Type 0
HeaderMap = List (String × Option String)

-- `HeaderMap::get`: the first value of the name.
abbrev pub header : String → HeaderMap → Option (Option String)
header name headers =
    Optional.map (λ (h : String × Option String). h.1)
      (find (λ (h : String × Option String). h.0 == name) headers)

-- `.get(name).and_then(|v| v.to_str().ok())`
abbrev pub header_text : String → HeaderMap → Option String
header_text name headers = and_then (header name headers) λ value. value

abbrev pub host_header : HeaderMap → String
host_header headers =
    get_or
      (and_then (or_else (header "x-forwarded-host" headers) (header "host" headers))
        λ value. value)
      "localhost"

unfoldable pub resolve_base_url : HeaderMap → String
resolve_base_url headers =
    get_or (header_text "x-forwarded-proto" headers) "http" ⧺ "://" ⧺ host_header headers

-- `.split(':').next()`: the text up to the first colon.
unfoldable pub effective_host : HeaderMap → String
unfolding break
effective_host headers = (break (λ c. nat_eq c b':') (host_header headers)).0

unfoldable pub resource_metadata_url : String → String
resource_metadata_url base_url = base_url ⧺ "/.well-known/oauth-protected-resource/mcp"

unfoldable pub header_pairs : HeaderMap → Headers
header_pairs = map (λ (h : String × Option String). (h.0, get_or h.1 ""))
