-- ===== src/Api/Tests.antt =====
-- The interface on a platform that knows one address.
use elektrine.Base.{
  ◌≡◌, refl, sym, ap, ◌∙◌, String, Bool, true, false, Option, none, some, [], ◌∷◌, if◌then◌else◌,
  ◌===◌, starts_with, All, same_some, none-some,
}
use elektrine.Base.Effects.{err}
use elektrine.Nerve.Types.{Settings}
use elektrine.Api.Types.{
  Env, Url, Json, null, boolean, number, text, array, object, no_items, item, no_fields, field,
  Fetch, text_entry, no_body,
}
use elektrine.Api.Address.{normalize_server_url}
use elektrine.Api.Form.{append_form_value}
use elektrine.Api.Form.Leaves.{leaves, entries, append_form_value_lem}
use elektrine.Api.Request.{request, authorization_of, error_message}
use elektrine.Api.Secure.{Reads, IsSecure, listing, entry, perform, perform-Secure}

abbrev address : Url
address = record { protocol = "https:"; hostname = "a.example"; pathname = "/base//"; parsed = "" }

known : String → Option Url
known s = if starts_with s "https://a.example" then some address else none

abbrev demo : Env
demo = record {
  parse_url = known;
  bare_url = λ u pathname. record u { pathname = pathname };
  show_url = λ u. "https://a.example/base/";
  decimal = λ n. "403";
  to_text = λ v. "1";
  fetch = λ f.
      if f.method === "GET"
      then some (record {
        ok = false;
        status = 403;
        payload = some (object (field "error" (text "No.") no_fields));
      })
      else none;
}

known_if : (b : Bool) (u : Url) → (if b then some address else none) ≡ some u → address ≡ u
known_if true u h = same_some address u h
known_if false u h = none-some u h

known-same : (source : String) (u : Url) → known source ≡ some u → address ≡ u
unfolding known
known-same source u h = known_if (starts_with source "https://a.example") u h

demo-Reads : Reads demo
demo-Reads = record {
  keeps = λ source path u v e secure b f.
      let same = sym (known-same _ v f) ∙ known-same source u e in
      (ap (λ w. w.protocol) same, ap (λ w. w.hostname) same);
}

abbrev settings : Settings
settings = record { server_url = " https://a.example/base// "; api_token = " ekt_1 "; theme = none }

abbrev listing_fetch : Fetch
listing_fetch = record {
  url = "https://a.example/base/api/ext/v1/nerve/entries?limit=100";
  method = "GET";
  authorization = some "Bearer ekt_1";
  content_type = none;
  body = no_body;
}

listing_test : perform demo settings listing [] ≡ (err "No.", listing_fetch ∷ [])
unfolding request normalize_server_url authorization_of error_message known
listing_test = refl

-- Without a token nothing is sent.
no_token_test :
    perform demo (record settings { api_token = " " }) (entry "7") []
    ≡ (err "An access token is required.", [])
unfolding request normalize_server_url authorization_of known
no_token_test = refl

perform-Secure_example : All (IsSecure demo) (perform demo settings (entry "7") []).1
perform-Secure_example = perform-Secure demo demo-Reads settings (entry "7") [] tt

abbrev attrs : Json
attrs = object (
    field "tags" (array (item (text "a") (item null (item (number "1" false) no_items))))
      (field "meta" (object (field "k" (text "") (field "b" (boolean true) no_fields))) no_fields))

attrs_test :
    append_form_value demo "source" attrs
    ≡ text_entry "source[tags][]" "a"
      ∷ text_entry "source[tags][]" "1"
      ∷ text_entry "source[meta][b]" "1"
      ∷ []
attrs_test = refl

append_form_value_lem_example :
    append_form_value demo "source" attrs ≡ entries demo "source" (leaves attrs)
append_form_value_lem_example = append_form_value_lem demo "source" attrs
