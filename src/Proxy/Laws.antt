-- ===== src/Proxy/Laws.antt =====
-- What the proxy sends upstream, and when it sends nothing.
use brain.Base.{
  ◌≡◌, refl, ◌≢◌, ◌⊎◌, inl, inr, String, Option, none, some, true, false, not, List, [], ◌∷◌, ◌++◌,
  arith, eq_iff, keep, All, Bool, Bool-cases, Option-cases, ◌==◌, if◌then◌else◌,
}
use brain.Base.Text.{eq_ignore_ascii_case, lowercase_is, lowercase_is_congr, ◌⧺◌}
use brain.Base.Io
use brain.Base.Result.{Result, err}
use brain.Domain.Redact.{elide_secret}
use brain.Domain.{
  Headers, McpProxyRequest, McpProxyResponse, misdirected_request, Failure, error, panicked,
}
use brain.Proxy.{
  ProxyMcpUseCase, hop_by_hop_headers, request_strip_headers, contains_lowercase,
  filter_request_headers, forward_request, handle, handle_unvalidated, build_upstream_url,
  query_part,
}

-- The headers of a name, up to the case of letters.
abbrev pub named : String → Headers → Headers
named word = keep (λ (header : String × String). eq_ignore_ascii_case header.0 word)

-- What the two filters do, for a list of words.
abbrev without : List String → Headers → Headers
without words = keep (λ (header : String × String). not (contains_lowercase words header.0))

contains_congr :
    (words : List String) (s t : String)
    → eq_ignore_ascii_case s t ≡ true
    → contains_lowercase words s ≡ contains_lowercase words t
contains_congr [] s t h = refl
contains_congr (w ∷ words) s t h = rw (lowercase_is_congr s t w h, contains_congr words s t h)

-- Of a word in the list the filter leaves nothing, and of any other word everything.
named-without :
    (word : String) (words : List String) (headers tail : Headers)
    → named word (without words headers ++ tail)
      ≡ (if contains_lowercase words word then named word tail else named word (headers ++ tail))
named-without word words [] tail = ground arith
named-without word words ((name, value) ∷ headers) tail =
    ground (arith, contains_congr words name word, named-without word words headers tail)

named-append_other :
    (word name value : String) (headers : Headers)
    → eq_ignore_ascii_case name word ≡ false
    → named word (headers ++ (name, value) ∷ []) ≡ named word headers
named-append_other word name value [] m = rw m
named-append_other word name value ((n, v) ∷ headers) m =
    ground (arith, named-append_other word name value headers m)

not-secret :
    (word : String)
    → contains_lowercase request_strip_headers word ≡ false
    → eq_ignore_ascii_case "x-brain3-upstream-secret" word ≡ false
unfolding lowercase_is
not-secret word m = elim (Bool-cases (eq_ignore_ascii_case "x-brain3-upstream-secret" word)) [
  | inl same ↦ cc (contains_congr request_strip_headers "x-brain3-upstream-secret" word same, m)
  | inr other ↦ other
]

module _ {W B : Type 0} (use_case : ProxyMcpUseCase W B) where
  abbrev secret_header : Headers
  secret_header = ("x-brain3-upstream-secret", use_case.upstream_secret) ∷ []

  -- The headers that are sent for those that come in.
  pub record IsForwarded (headers forwarded : Headers) : Type 0 where
    pub secret_once : named "x-brain3-upstream-secret" forwarded ≡ secret_header
    pub no_authorization : named "authorization" forwarded ≡ []
    pub no_content_length : named "content-length" forwarded ≡ []
    pub no_host : named "host" forwarded ≡ []
    pub no_hop_by_hop : All (λ word. named word forwarded ≡ []) hop_by_hop_headers
    pub others :
        (word : String)
        → named word forwarded ≡ (
            if contains_lowercase request_strip_headers word
            then named word secret_header
            else named word headers)

  forwarded-named :
      (headers : Headers) (word : String)
      → named word (filter_request_headers headers ++ secret_header) ≡ (
          if contains_lowercase request_strip_headers word
          then named word secret_header
          else named word headers)
  unfolding filter_request_headers
  forwarded-named headers word = ground (
    arith,
    named-without word request_strip_headers headers secret_header,
    named-append_other word "x-brain3-upstream-secret" use_case.upstream_secret headers,
    not-secret word,
  )

  filter_request_headers-IsForwarded :
      (headers : Headers) → IsForwarded headers (filter_request_headers headers ++ secret_header)
  unfolding eq_ignore_ascii_case lowercase_is
  filter_request_headers-IsForwarded headers =
      let at = forwarded-named headers in
      record {
        secret_once = at "x-brain3-upstream-secret";
        no_authorization = at "authorization";
        no_content_length = at "content-length";
        no_host = at "host";
        no_hop_by_hop = (
          at "connection",
          (
            at "keep-alive",
            (
              at "proxy-authenticate",
              (
                at "proxy-authorization",
                (at "te", (at "trailers", (at "transfer-encoding", (at "upgrade", tt)))),
              ),
            ),
          ),
        );
        others = at;
      }

  module _ (method path : String) (query : Option String) (headers : Headers) (body : B) where
    module _ (request_host : String) (w : W) where
      -- A request that is sent upstream: once, with its answer returned, with the method, the body,
      -- the path and the query that came in, at the configured address; the path /mcp/ loses its last
      -- slash.
      abbrev pub IsSent : Result Failure (McpProxyResponse B) × W → Type 0
      IsSent answer =
          (request : McpProxyRequest B) × (answer ≡ Io.map_err error (use_case.proxy request) w)
          × (request.method ≡ method)
          × (request.url
              ≡ use_case.upstream_url
                ⧺ (if path == "/mcp/" then "/mcp" else path)
                ⧺ query_part query)
          × (request.body ≡ body)
          × IsForwarded headers request.headers

      -- With a secret that the log line can shorten, every request is sent upstream exactly once, and
      -- its answer returned. It has the method and the body that came in, and the configured address
      -- with the path and the query that came in, where /mcp stands for the path /mcp/; it carries the gateway's secret once and no other header of that name, none of the client's
      -- authorization, content-length, host or hop-by-hop headers, and the headers of every name that
      -- is not stripped as they came in. With any other secret every request panics, and nothing is
      -- sent.
      pub handle_unvalidated-IsForwarded :
          ((hint : String) × (elide_secret use_case.upstream_secret ≡ some hint)
            × IsSent (handle_unvalidated use_case request_host method path query headers body w))
          ⊎ ((elide_secret use_case.upstream_secret ≡ none)
              × (handle_unvalidated use_case request_host method path query headers body w
                  ≡ (err panicked, w)))
      unfolding handle_unvalidated build_upstream_url
      handle_unvalidated-IsForwarded = elim (Option-cases (elide_secret use_case.upstream_secret)) [
        | inl cut ↦ inr (cut, rw (handle_unvalidated, forward_request, cut) refl)
        | inr (hint, shown) ↦ inl (
          hint,
          shown,
          (
            record {
              method = method;
              url =
                  use_case.upstream_url
                  ⧺ (if path == "/mcp/" then "/mcp" else path)
                  ⧺ query_part query;
              headers = filter_request_headers headers ++ secret_header;
              body = body;
            },
            rw (handle_unvalidated, forward_request, shown) refl,
            refl,
            refl,
            refl,
            filter_request_headers-IsForwarded headers,
          ),
        )
      ]

      -- The host of the request is not enforced, not known, or the expected one.
      abbrev pub IsExpected : Type 0
      IsExpected =
          (use_case.hostname_validation.enforce ≡ false)
          ⊎ ((use_case.hostname_validation.expected_host ≡ none)
              ⊎ (use_case.hostname_validation.expected_host ≡ some request_host))

      abbrev pub IsChecked : Type 0
      IsChecked =
          (IsExpected
            × (handle use_case request_host method path query headers body w
                ≡ handle_unvalidated use_case request_host method path query headers body w))
          ⊎ ((expected : String) × (use_case.hostname_validation.enforce ≡ true)
              × (use_case.hostname_validation.expected_host ≡ some expected)
              × (request_host ≢ expected)
              × (handle use_case request_host method path query headers body w ≡ (
                err (
                    error (
                      misdirected_request (
                        "request host '" ⧺ request_host ⧺ "' does not match expected host '"
                        ⧺ expected ⧺ "'"))),
                w,
              )))

      handle-cases :
          (enforce : Bool) (expected_host : Option String)
          → use_case.hostname_validation.enforce ≡ enforce
          → use_case.hostname_validation.expected_host ≡ expected_host
          → IsChecked
      unfolding handle handle_unvalidated
      handle-cases false expected_host on known = inl (inl on, rw (handle, on) refl)
      handle-cases true none on known = inl (inr (inl known), rw (handle, on, known) refl)
      handle-cases true (some expected) on known = elim (Bool-cases (request_host == expected)) [
        | inl same ↦
            let here : request_host ≡ expected = ground (arith, eq_iff request_host expected) in
            inl (inr (inr (rw here known)), rw (handle, on, known) (rw same refl))
        | inr differ ↦ inr (
          expected,
          on,
          known,
          λ same. ground (arith, eq_iff request_host expected),
          rw (handle, on, known) (rw differ refl),
        )
      ]

      -- The checked handler does what the unchecked one does exactly for the requests whose host is
      -- not enforced, not known, or the expected one. Every other request is answered with the error
      -- that it was misdirected, and nothing is sent.
      pub handle-IsChecked : IsChecked
      handle-IsChecked = handle-cases _ _ refl refl
