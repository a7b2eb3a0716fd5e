-- ===== src/Plugin/Uri.antt =====
-- The prefixing of resource URIs: `split_uri_authority` and the two functions over it.
pub mod Laws
pub mod RoundTrip
use brain.Base.{ℕ, String, Option, none, some, Bool, ◌||◌, nat_eq, if◌then◌else◌}
use brain.Base.Optional.{and_then}
use brain.Base.Text.{◌⧺◌, strip_prefix, split_once, break, is_empty}

-- `matches!(character, '/' | '?' | '#')`
abbrev pub ends_authority : ℕ → Bool
ends_authority c = nat_eq c b'/' || nat_eq c b'?' || nat_eq c b'#'

-- The scheme with `://`, the authority and what follows it.
unfoldable pub split_uri_authority : String → Option (String × String × String)
unfolding split_once break
split_uri_authority uri = and_then (split_once "://" uri) λ parts.
    let authority = (break ends_authority parts.1).0 in
    if is_empty authority
    then none
    else some (parts.0 ⧺ "://", authority, (break ends_authority parts.1).1)

unfoldable pub prefix_resource_uri_for_container : String → String → Option String
unfolding split_uri_authority
prefix_resource_uri_for_container container_name uri =
    and_then (split_uri_authority uri)
      λ parts. some (parts.0 ⧺ container_name ⧺ "__" ⧺ parts.1 ⧺ parts.2)

-- `strip_prefix(container_name)`, then `strip_prefix("__")`, and `filter` of the empty rest.
unfoldable pub strip_name : String → String → Option String
unfolding strip_prefix
strip_name container_name text =
    and_then (strip_prefix container_name text)
      λ rest. and_then (strip_prefix "__" rest) λ name. if is_empty name then none else some name

unfoldable pub strip_resource_uri_prefix_for_container : String → String → Option String
unfolding split_uri_authority strip_name
strip_resource_uri_prefix_for_container container_name uri =
    and_then (split_uri_authority uri) λ parts.
      and_then (strip_name container_name parts.1) λ authority. some (parts.0 ⧺ authority ⧺ parts.2)
