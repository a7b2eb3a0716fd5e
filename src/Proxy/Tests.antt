-- ===== src/Proxy/Tests.antt =====
-- The proxy at concrete requests.
use brain.Base.{◌≡◌, refl, ◌⊎◌, String, none, some, []}
use brain.Base.Result.{err}
use brain.Domain.{panicked}
use brain.Domain.Redact.{elide_secret}
use brain.Proxy.{ProxyMcpUseCase, handle_unvalidated}
use brain.Proxy.Laws.{IsSent, IsChecked, handle_unvalidated-IsForwarded, handle-IsChecked}
use brain.Samples.{Bytes, Sent, use_case, headers}

handle_unvalidated-IsForwarded_example :
    ((hint : String) × (elide_secret "s3cret" ≡ some hint)
      × IsSent use_case "POST" "/mcp/"
          (some "a=b")
          headers
          none
          "brain.example"
          []
          (handle_unvalidated use_case "brain.example" "POST" "/mcp/" (some "a=b") headers none []))
    ⊎ ((elide_secret "s3cret" ≡ none)
        × (handle_unvalidated use_case "brain.example" "POST" "/mcp/" (some "a=b") headers none []
            ≡ (err panicked, [])))
handle_unvalidated-IsForwarded_example =
    handle_unvalidated-IsForwarded use_case "POST" "/mcp/" (some "a=b") headers none "brain.example"
      []

-- A secret of three letters of two bytes each.
abbrev accented : ProxyMcpUseCase Sent Bytes
accented = record use_case { upstream_secret = "ééé" }

panics_on_accented_secret :
    handle_unvalidated accented "brain.example" "POST" "/mcp" none headers none []
    ≡ (err panicked, [])
unfolding handle_unvalidated
panics_on_accented_secret = refl

handle-IsChecked_example : IsChecked use_case "POST" "/mcp" none headers none "evil.example" []
handle-IsChecked_example =
    handle-IsChecked use_case "POST" "/mcp" none headers none "evil.example" []
