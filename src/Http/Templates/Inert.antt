-- ===== src/Http/Templates/Inert.antt =====
-- No parameter adds markup to the pages of crates/platform/src/http/templates.rs.
use Prim.Native.Char.{code}
use text.Mathlib.TextLemmas.{nil-append, cons-append}
use brain.Base.{
  ℕ, ◌≡◌, ◌∙◌, refl, sym, String, Option, none, some, Bool, false, not, ◌&&◌, ◌||◌, List, [], ◌∷◌,
  ◌++◌, nat_eq, inl, inr, Bool-cases, arith, if◌then◌else◌,
}
use brain.Base.Optional
use brain.Base.Text.{◌⧺◌}
use brain.Base.Whitespace.{replace}
use brain.Http.Responses.{LoginFormParams}
use brain.Http.Templates.{
  html_escape, render_page, hidden_field, optional_field, fields_html, error_html, form_html,
  render_login_form,
}
use brain.Http.Templates.Markup.{
  page_start, page_kicker, page_heading, page_body, page_end, form_start, form_fields, form_end,
}

-- The characters that begin and end a tag or a quoted attribute.
abbrev pub is_markup : ℕ → Bool
is_markup c = nat_eq c b'<' || nat_eq c b'>' || nat_eq c b'"' || nat_eq c b'\''

-- The characters of a text that satisfy `p`.
unfoldable pub kept : (ℕ → Bool) → String → List ℕ
kept p String.[] = []
kept p (String.◌∷◌ c s) = let rest = kept p s in if p (code c) then code c ∷ rest else rest

abbrev pub markup : String → List ℕ
markup s = kept is_markup s

kept-append : (p : ℕ → Bool) (s t : String) → kept p (s ⧺ t) ≡ kept p s ++ kept p t
unfolding kept
kept-append p String.[] t = rw nil-append refl
kept-append p (String.◌∷◌ c s) t = elim (Bool-cases (p (code c))) [
  | inl chosen ↦ rw (cons-append, chosen, kept-append p s t) refl
  | inr passed ↦ rw (cons-append, passed, kept-append p s t) refl
]

-- Replacing a character by a text without characters of `p` removes that character from `p`.
kept-replace :
    (p : ℕ → Bool) (k : ℕ) (text s : String)
    → kept p text ≡ []
    → kept p (replace k text s) ≡ kept (λ c. not (nat_eq c k) && p c) s
unfolding kept replace
kept-replace p k text String.[] h = refl
kept-replace p k text (String.◌∷◌ c s) h = elim (Bool-cases (nat_eq (code c) k)) [
  | inl same ↦ rw (same, kept-append p text (replace k text s), h) (kept-replace p k text s h)
  | inr other ↦ elim (Bool-cases (p (code c))) [
    | inl chosen ↦ rw (other, chosen, kept-replace p k text s h) refl
    | inr passed ↦ rw (other, passed) (kept-replace p k text s h)
  ]
]

kept-none : (p : ℕ → Bool) (s : String) → ((c : ℕ) → p c ≡ false) → kept p s ≡ []
unfolding kept
kept-none p String.[] never = refl
kept-none p (String.◌∷◌ c s) never = rw (never (code c)) (kept-none p s never)

abbrev without : ℕ → (ℕ → Bool) → ℕ → Bool
without k p c = not (nat_eq c k) && p c

never : (c : ℕ) → without b'<' (without b'>' (without b'"' (without b'\'' is_markup))) c ≡ false
never c = ground arith

html_escape-markup : (s : String) → markup (html_escape s) ≡ []
unfolding html_escape kept
html_escape-markup s =
    let amp = replace b'&' "&amp;" s in
    let lt = replace b'<' "&lt;" amp in
    let gt = replace b'>' "&gt;" lt in
    let quot = replace b'"' "&quot;" gt in
    let text = without b'\'' is_markup in
    kept-replace is_markup b'\'' "&#x27;" quot refl
    ∙ kept-replace text b'"' "&quot;" gt refl
    ∙ kept-replace (without b'"' text) b'>' "&gt;" lt refl
    ∙ kept-replace (without b'>' (without b'"' text)) b'<' "&lt;" amp refl
    ∙ kept-none (without b'<' (without b'>' (without b'"' text))) amp (λ c. never c)

-- Texts with the same markup.
abbrev Alike : String → String → Type 0
Alike s t = markup s ≡ markup t

Alike-append : (a b c d : String) → Alike a b → Alike c d → Alike (a ⧺ c) (b ⧺ d)
Alike-append a b c d h k = rw (kept-append is_markup a c, kept-append is_markup b d, h, k) refl

-- One fixed text before two alike ones.
Alike-after : (a c d : String) → Alike c d → Alike (a ⧺ c) (a ⧺ d)
Alike-after a c d = Alike-append a a c d refl

Alike-escape : (s t : String) → Alike (html_escape s) (html_escape t)
Alike-escape s t = html_escape-markup s ∙ sym (html_escape-markup t)

Alike-hidden : (name s t : String) → Alike (hidden_field name s) (hidden_field name t)
unfolding hidden_field
Alike-hidden name s t = Alike-after "<input type=\"hidden\" name=\"" _ _ (
    Alike-after name _ _ (
      Alike-after "\" value=\"" _ _
        (Alike-append (html_escape s) (html_escape t) "\">" "\">" (Alike-escape s t) refl)))

-- Parameters of which every text is empty, and a text that is there is there.
abbrev pub emptied : Option String → Option String
emptied none = none
emptied (some s) = some ""

abbrev pub blank : LoginFormParams → LoginFormParams
blank params = record {
  response_type = "";
  client_id = "";
  redirect_uri = "";
  state = emptied params.state;
  code_challenge = emptied params.code_challenge;
  code_challenge_method = some "";
}

Alike-optional :
    (name : String) (value : Option String)
    → Alike (optional_field name value) (optional_field name (emptied value))
Alike-optional name none = refl
Alike-optional name (some s) =
    Alike-append (hidden_field name s) (hidden_field name "") "\n" "\n" (Alike-hidden name s "")
      refl

Alike-error : (error : Option String) → Alike (error_html error) (error_html (emptied error))
unfolding error_html
Alike-error none = refl
Alike-error (some msg) =
    Alike-after "<div class=\"error\" role=\"alert\"><strong>Sign-in failed</strong><p>" _ _ (
      Alike-append (html_escape msg) (html_escape "") "</p></div>" "</p></div>"
        (Alike-escape msg "") refl)

Alike-line :
    (name s : String) (rest other : String)
    → Alike rest other
    → Alike (hidden_field name s ⧺ "\n" ⧺ rest) (hidden_field name "" ⧺ "\n" ⧺ other)
Alike-line name s rest other h =
    Alike-append (hidden_field name s) (hidden_field name "") _ _ (Alike-hidden name s "")
      (Alike-after "\n" rest other h)

Alike-fields : (params : LoginFormParams) → Alike (fields_html params) (fields_html (blank params))
unfolding fields_html
Alike-fields params = Alike-line "response_type" params.response_type _ _ (
    Alike-line "client_id" params.client_id _ _ (
      Alike-line "redirect_uri" params.redirect_uri _ _ (
        Alike-append _ _ _ _ (Alike-optional "state" params.state) (
          Alike-append _ _ _ _ (Alike-optional "code_challenge" params.code_challenge) (
            Alike-hidden "code_challenge_method"
              (Optional.get_or params.code_challenge_method "S256") "")))))

Alike-form :
    (params : LoginFormParams) (error : Option String)
    → Alike (form_html params error) (form_html (blank params) (emptied error))
unfolding form_html
Alike-form params error = Alike-after form_start _ _ (
    Alike-append (error_html error) (error_html (emptied error)) _ _ (Alike-error error) (
      Alike-after form_fields _ _ (
        Alike-append (fields_html params) (fields_html (blank params)) form_end form_end
          (Alike-fields params) refl)))

-- Whatever the parameters of a request and the message are, the login form has the same characters
-- `<`, `>`, `"` and `'` in the same order as the form whose parameters and message are empty: no text
-- of a request begins or ends a tag or an attribute.
pub render_login_form-markup :
    (params : LoginFormParams) (error : Option String)
    → markup (render_login_form params error)
      ≡ markup (render_login_form (blank params) (emptied error))
unfolding render_login_form render_page
render_login_form-markup params error = page
  where
    page : Alike (render_login_form params error) (render_login_form (blank params) (emptied error))
    page = Alike-after page_start _ _ (
        Alike-after (html_escape "Sign-in to your Brain3 Local Gateway") _ _ (
          Alike-after page_kicker _ _ (
            Alike-after (html_escape "Brain3 Local Gateway") _ _ (
              Alike-after page_heading _ _ (
                Alike-after (html_escape "Sign-in to your Brain3 Local Gateway") _ _ (
                  Alike-after page_body _ _ (
                    Alike-append (form_html params error) (form_html (blank params) (emptied error))
                      page_end page_end (Alike-form params error) refl)))))))
