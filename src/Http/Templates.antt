-- ===== src/Http/Templates.antt =====
-- The pages of crates/platform/src/http/templates.rs: the HTML of each.
pub mod Markup
pub mod Inert
mod Tests
use brain.Base.{String, Option, none, some, List, [], ◌∷◌}
use brain.Base.Optional.{get_or}
use brain.Base.Text.{◌⧺◌}
use brain.Base.Whitespace.{replace}
use brain.Http.Responses.{LoginFormParams, Page, login_form, misconfigured}
use brain.Http.Templates.Markup.{
  page_start, page_kicker, page_heading, page_body, page_end, form_start, form_fields, form_end,
  misconfigured_body,
}

unfoldable pub html_escape : String → String
unfolding replace
html_escape s =
    replace b'\'' "&#x27;"
      (replace b'"' "&quot;" (replace b'>' "&gt;" (replace b'<' "&lt;" (replace b'&' "&amp;" s))))

unfoldable pub render_page : (title kicker heading body_html : String) → String
unfolding html_escape page_start page_kicker page_heading page_body page_end
render_page title kicker heading body_html =
    page_start
    ⧺ html_escape title
    ⧺ page_kicker
    ⧺ html_escape kicker
    ⧺ page_heading
    ⧺ html_escape heading
    ⧺ page_body
    ⧺ body_html
    ⧺ page_end

unfoldable pub hidden_field : (name value : String) → String
unfolding html_escape
hidden_field name value =
    "<input type=\"hidden\" name=\"" ⧺ name ⧺ "\" value=\"" ⧺ html_escape value ⧺ "\">"

abbrev pub optional_field : String → Option String → String
optional_field name none = ""
optional_field name (some value) = hidden_field name value ⧺ "\n"

-- The names of the fields are left as they are by html_escape.
unfoldable pub fields_html : LoginFormParams → String
unfolding hidden_field
fields_html params =
    hidden_field "response_type" params.response_type
    ⧺ "\n"
    ⧺ hidden_field "client_id" params.client_id
    ⧺ "\n"
    ⧺ hidden_field "redirect_uri" params.redirect_uri
    ⧺ "\n"
    ⧺ optional_field "state" params.state
    ⧺ optional_field "code_challenge" params.code_challenge
    ⧺ hidden_field "code_challenge_method" (get_or params.code_challenge_method "S256")

unfoldable pub error_html : Option String → String
unfolding html_escape
error_html none = ""
error_html (some msg) =
    "<div class=\"error\" role=\"alert\"><strong>Sign-in failed</strong><p>"
    ⧺ html_escape msg
    ⧺ "</p></div>"

unfoldable pub form_html : LoginFormParams → Option String → String
unfolding form_start form_fields form_end fields_html error_html
form_html params error = form_start ⧺ error_html error ⧺ form_fields ⧺ fields_html params ⧺ form_end

unfoldable pub render_login_form : LoginFormParams → Option String → String
unfolding render_page form_html
render_login_form params error =
    render_page "Sign-in to your Brain3 Local Gateway" "Brain3 Local Gateway"
      "Sign-in to your Brain3 Local Gateway" (form_html params error)

unfoldable pub render_misconfigured_page : String
unfolding render_page misconfigured_body
render_misconfigured_page =
    render_page "Login credentials not configured" "Brain3 Local Gateway"
      "Login credentials not configured" misconfigured_body
