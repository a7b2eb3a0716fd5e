-- ===== src/Http/Templates/Tests.antt =====
-- The login form at a concrete request.
use brain.Base.{◌≡◌, refl, none, some}
use brain.Http.Responses.{LoginFormParams}
use brain.Http.Templates.{html_escape, hidden_field, render_login_form}
use brain.Http.Templates.Inert.{markup, blank, render_login_form-markup}

abbrev params : LoginFormParams
params = record {
  response_type = "code";
  client_id = "\"><script>";
  redirect_uri = "https://a/";
  state = some "'x'";
  code_challenge = none;
  code_challenge_method = none;
}

escapes_value :
    hidden_field "client_id" params.client_id
    ≡ "<input type=\"hidden\" name=\"client_id\" value=\"&quot;&gt;&lt;script&gt;\">"
unfolding hidden_field
escapes_value = refl

escapes_ampersand_once : html_escape "a&<'" ≡ "a&amp;&lt;&#x27;"
unfolding html_escape
escapes_ampersand_once = refl

render_login_form-markup_example :
    markup (render_login_form params (some "<b>"))
    ≡ markup (render_login_form (blank params) (some ""))
render_login_form-markup_example = render_login_form-markup params (some "<b>")
