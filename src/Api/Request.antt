-- ===== src/Api/Request.antt =====
-- api.js: one request (request), and the operations of the interface.
use elektrine.Base.{
  String, Bool, true, false, not, Option, none, some, List, [], ◌∷◌, ◌++◌, if◌then◌else◌, ◌===◌,
  truthy, trim, concat, starts_with,
}
use elektrine.Base.Effects.{Result, ok, err, Does, pure, lift, ◌>>=◌}
use elektrine.Nerve.Types.{Settings}
use elektrine.Api.Types.{
  Env, Json, null, boolean, number, text, array, object, Fields, no_fields, field, File, FormEntry,
  file_entry, Body, no_body, json_body, form_body, Fetch, Response,
}
use elektrine.Api.Address.{normalize_server_url}
use elektrine.Api.Form.{append_fields}

-- The requests that went out.
abbrev pub M : Type 0 → Type 0
M A = Does (List Fetch) A

abbrev pub field_of : String → Fields → Option Json
field_of key no_fields = none
field_of key (field k v fields) = if k === key then some v else field_of key fields

-- `value?.key`
abbrev pub member : String → Option Json → Option Json
member key (some (object fs)) = field_of key fs
member key _ = none

abbrev pub is_truthy : Option Json → Bool
is_truthy none = false
is_truthy (some null) = false
is_truthy (some (boolean b)) = b
is_truthy (some (number t z)) = not z
is_truthy (some (text s)) = truthy s
is_truthy (some (array items)) = true
is_truthy (some (object fs)) = true

abbrev pub message_in : Option Json → Option Json
message_in payload =
    let inner = member "message" (member "error" payload) in
    if is_truthy inner
    then inner
    else if is_truthy (member "error" payload)
    then member "error" payload
    else member "message" payload

abbrev status_message : Env → Response → String
status_message env response = concat "Request failed (" (concat (env.decimal response.status) ").")

abbrev shown : Env → Response → Option Json → String
shown env response (some (text s)) = if truthy (trim s) then s else status_message env response
shown env response _ = status_message env response

unfoldable pub error_message : Env → Option Json → Response → String
unfolding trim
error_message env payload response = shown env response (message_in payload)

-- `payload?.data ?? payload`, where an answer that is no JSON is `null`.
abbrev given : Json → Option Json → Json
given payload none = payload
given payload (some null) = payload
given payload (some v) = v

abbrev parsed : Option Json → Json
parsed none = null
parsed (some v) = v

abbrev pub answered : Env → Option Response → Result Json
answered env none = err "Could not reach the Elektrine server."
answered env (some r) =
    if r.ok
    then ok (given (parsed r.payload) (member "data" (some (parsed r.payload))))
    else err (error_message env (some (parsed r.payload)) r)

pub record Options : Type 0 where
  pub method : String
  pub token : Option String
  pub auth : Bool
  pub body : Body

abbrev content_type_of : Body → Option String
content_type_of (json_body v) = some "application/json"
content_type_of _ = none

abbrev chosen_token : Settings → Option String → String
chosen_token settings none = settings.api_token
chosen_token settings (some token) = token

abbrev pub fetch_of : String → String → Options → Option String → Fetch
fetch_of server path options authorization = record {
  url = concat server path;
  method = options.method;
  authorization = authorization;
  content_type = content_type_of options.body;
  body = options.body;
}

-- The `Authorization` header.
unfoldable pub authorization_of : Settings → Options → Result (Option String)
unfolding trim
authorization_of settings options =
    let token = trim (chosen_token settings options.token) in
    if options.auth
    then if truthy token
      then ok (some (concat "Bearer " token))
      else err "An access token is required."
    else ok none

unfoldable pub is_personal_access_token : String → Bool
unfolding trim
is_personal_access_token token = starts_with (trim token) "ekt_"

module _ (env : Env) where
  abbrev pub send : Fetch → M Json
  send f sent = (answered env (env.fetch f), sent ++ f ∷ [])

  unfoldable pub request : Settings → String → Options → M Json
  unfolding normalize_server_url authorization_of
  request settings path options = do
    server ← lift (normalize_server_url env settings.server_url)
    authorization ← lift (authorization_of settings options)
    send (fetch_of server path options authorization)

  abbrev get_options : Options
  get_options = record { method = "GET"; token = none; auth = true; body = no_body }

  abbrev with_body : String → Body → Options
  with_body method body = record { method = method; token = none; auth = true; body = body }

  -- `{ [key]: value }`
  abbrev wrapped : String → Json → Body
  wrapped key v = json_body (object (field key v no_fields))

  abbrev pub list_entries : Settings → M Json
  list_entries settings = request settings "/api/ext/v1/nerve/entries?limit=100" get_options

  abbrev pub get_entry : Settings → String → M Json
  get_entry settings entry_id =
      request settings (concat "/api/ext/v1/nerve/entries/" entry_id) get_options

  abbrev pub create_entry : Settings → Json → M Json
  create_entry settings attrs =
      request settings "/api/ext/v1/nerve/entries" (with_body "POST" (wrapped "entry" attrs))

  abbrev pub update_entry : Settings → String → Json → M Json
  update_entry settings entry_id attrs =
      request settings (concat "/api/ext/v1/nerve/entries/" entry_id)
        (with_body "PUT" (wrapped "entry" attrs))

  abbrev pub create_kairo_source : Settings → Json → M Json
  create_kairo_source settings attrs =
      request settings "/api/ext/v1/kairo/sources" (with_body "POST" (wrapped "source" attrs))

  abbrev title_or_default : Option Json → String
  title_or_default none = "kairo-file"
  title_or_default (some v) = if is_truthy (some v) then env.to_text v else "kairo-file"

  abbrev filename_of : Option String → Fields → String
  filename_of none attrs = title_or_default (field_of "title" attrs)
  filename_of (some name) attrs =
      if truthy name then name else title_or_default (field_of "title" attrs)

  abbrev pub file_form : File → Fields → List FormEntry
  file_form file attrs =
      file_entry "source[file]" (filename_of file.name attrs) file
      ∷ append_fields env "source" attrs

  abbrev pub create_kairo_file_source : Settings → File → Fields → M Json
  create_kairo_file_source settings file attrs =
      request settings "/api/ext/v1/kairo/sources"
        (with_body "POST" (form_body (file_form file attrs)))

  -- `more` names neither `username` nor `password`.
  abbrev pub login_with_account : (server_url username password : String) (more : Fields) → M Json
  login_with_account server_url username password more =
      let body =
        object (field "username" (text username) (field "password" (text password) more)) in
      request (record { server_url = server_url; api_token = ""; theme = none }) "/api/auth/login"
        (record { method = "POST"; token = none; auth = false; body = json_body body })

  unfoldable pub logout_with_account : Settings → M Json
  unfolding is_personal_access_token
  logout_with_account settings =
      if is_personal_access_token settings.api_token
      then pure (object (field "message" (text "Signed out locally.") no_fields))
      else request settings "/api/auth/logout" (with_body "POST" no_body)
