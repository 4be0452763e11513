-- ===== src/Api/Secure.antt =====
-- Where the requests of the interface go (api.js).
use Prim.Native.Char.{code}
use Prim.Native.String.append
use elektrine.Base.{
  ◌≡◌, refl, ap, ◌∙◌, String, Bool, true, false, not, ◌&&◌, ◌||◌, Option, none, some, List, ◌===◌,
  ◌==◌, if◌then◌else◌, concat, All, truthy, trim, inl, inr, Bool-cases,
}
use elektrine.Base.Effects.{Result, ok, err, ok-inj}
use elektrine.Nerve.Types.{Settings}
use elektrine.Api.Types.{Env, Url, Json, Fields, File, Fetch}
use elektrine.Api.Address.{
  is_secure, is_loopback_hostname, secure_address, parsed_address, strip_slashes,
  normalize_server_url, coerce_local_development_url,
}
use elektrine.Api.Sent.{request-All}
use elektrine.Api.Request.{
  M, Options, request, list_entries, get_entry, create_entry, update_entry, create_kairo_source,
  create_kairo_file_source, login_with_account, logout_with_account, is_personal_access_token,
}

abbrev pub begins_path : String → Bool
begins_path String.[] = false
begins_path (String.◌∷◌ c s) = code c == b'/'

empty_path : (t : String) {b : Bool} → false ≡ true → b ≡ true
empty_path t h = cc

begins_path-append : (p t : String) → begins_path p ≡ true → begins_path (concat p t) ≡ true
begins_path-append String.[] t h = empty_path t h
begins_path-append (String.◌∷◌ c p) t h = ap begins_path (append.cons c p t) ∙ h

-- The URL standard on an address that was normalised: with a path after it, it keeps its protocol
-- and its host.
pub record Reads (env : Env) : Type 0 where
  pub keeps :
      (source path : String) (u v : Url)
      → env.parse_url source ≡ some u
      → is_secure u ≡ true
      → begins_path path ≡ true
      → env.parse_url
          (concat (strip_slashes (env.show_url (env.bare_url u (strip_slashes u.pathname)))) path)
        ≡ some v
      → (v.protocol ≡ u.protocol) × (v.hostname ≡ u.hostname)

-- A browser that takes the request sends it by https, or by http to this machine.
abbrev pub IsSecure : Env → Fetch → Type 0
IsSecure env f = (v : Url) → env.parse_url f.url ≡ some v → is_secure v ≡ true

-- One of the operations, with its arguments.
pub data Call : Type 0 where
  listing : Call
  entry : (id : String) → Call
  creation : (attrs : Json) → Call
  update : (id : String) (attrs : Json) → Call
  kairo_source : (attrs : Json) → Call
  file_source : File → (attrs : Fields) → Call
  login : (username password : String) (more : Fields) → Call
  logout : Call

abbrev pub perform : Env → Settings → Call → M Json
perform env settings listing = list_entries env settings
perform env settings (entry id) = get_entry env settings id
perform env settings (creation attrs) = create_entry env settings attrs
perform env settings (update id attrs) = update_entry env settings id attrs
perform env settings (kairo_source attrs) = create_kairo_source env settings attrs
perform env settings (file_source file attrs) = create_kairo_file_source env settings file attrs
perform env settings (login username password more) =
    login_with_account env settings.server_url username password more
perform env settings logout = logout_with_account env settings

abbrev is_secure_at : (protocol hostname : String) → Bool
is_secure_at protocol hostname =
    protocol === "https:" || protocol === "http:" && is_loopback_hostname hostname

abbrev refusal : String
refusal = "Server URL must start with https://, or use http:// for localhost testing."

not_ok {ℓ ℓ'} : {A : Type ℓ} {B : Type ℓ'} {e : String} {a : A} {x y : B} → err e ≡ ok a → x ≡ y
not_ok h = cc

not_refused :
    (a b : Bool) (e : String) (r : Result String) (server : String)
    → (if not a && not b then err e else r) ≡ ok server
    → ((a || b) ≡ true) × (r ≡ ok server)
not_refused true b e r server h = (refl, h)
not_refused false true e r server h = (refl, h)
not_refused false false e r server h = (not_ok h, not_ok h)

module _ (env : Env) (reads : Reads env) where
  address-Secure :
      (source server path : String) (u v : Url)
      → env.parse_url source ≡ some u
      → secure_address env u ≡ ok server
      → begins_path path ≡ true
      → env.parse_url (concat server path) ≡ some v
      → is_secure v ≡ true
  address-Secure source server path u v e h b f =
      let address = strip_slashes (env.show_url (env.bare_url u (strip_slashes u.pathname))) in
      let (secure, made) =
        not_refused (u.protocol === "https:")
          (u.protocol === "http:" && is_loopback_hostname u.hostname) refusal (ok address) server
          h in
      let there = ap (λ a. env.parse_url (concat a path)) (ok-inj address server made) ∙ f in
      let (protocol, hostname) = reads.keeps source path u v e secure b there in
      ap (λ p. is_secure_at p v.hostname) protocol ∙ ap (is_secure_at u.protocol) hostname ∙ secure

  parsed-Secure :
      (source server path : String) (o : Option Url) (v : Url)
      → env.parse_url source ≡ o
      → parsed_address env o ≡ ok server
      → begins_path path ≡ true
      → env.parse_url (concat server path) ≡ some v
      → is_secure v ≡ true
  parsed-Secure source server path none v e h b f = not_ok h
  parsed-Secure source server path (some u) v e h b f =
      address-Secure source server path u v e h b f

  normalize-Secure :
      (value server path : String) (v : Url)
      → normalize_server_url env value ≡ ok server
      → begins_path path ≡ true
      → env.parse_url (concat server path) ≡ some v
      → is_secure v ≡ true
  unfolding normalize_server_url
  normalize-Secure value server path v h b f =
      let trimmed = coerce_local_development_url (trim value) in
      elim (Bool-cases (truthy trimmed)) [
        | inr e ↦ not_ok (rw e at h)
        | inl e ↦ parsed-Secure trimmed server path (env.parse_url trimmed) v refl (rw e at h) b f
      ]

  request-Secure :
      (settings : Settings) (path : String) (options : Options) (sent : List Fetch)
      → begins_path path ≡ true
      → All (IsSecure env) sent
      → All (IsSecure env) (request env settings path options sent).1
  request-Secure settings path options sent b p =
      request-All env (IsSecure env) settings path options sent
        (λ server authorization h v f. normalize-Secure settings.server_url server path v h b f) p

  -- Whatever the settings and the arguments, a request of any operation that a browser takes goes
  -- by https, or by http to this machine.
  pub perform-Secure :
      (settings : Settings) (c : Call) (sent : List Fetch)
      → All (IsSecure env) sent
      → All (IsSecure env) (perform env settings c sent).1
  unfolding logout_with_account
  perform-Secure settings listing sent p = request-Secure settings _ _ sent refl p
  perform-Secure settings (entry id) sent p =
      request-Secure settings _ _ sent (begins_path-append "/api/ext/v1/nerve/entries/" id refl) p
  perform-Secure settings (creation attrs) sent p = request-Secure settings _ _ sent refl p
  perform-Secure settings (update id attrs) sent p =
      request-Secure settings _ _ sent (begins_path-append "/api/ext/v1/nerve/entries/" id refl) p
  perform-Secure settings (kairo_source attrs) sent p = request-Secure settings _ _ sent refl p
  perform-Secure settings (file_source file attrs) sent p = request-Secure settings _ _ sent refl p
  perform-Secure settings (login username password more) sent p = request-Secure _ _ _ sent refl p
  perform-Secure settings logout sent p =
      elim (Bool-cases (is_personal_access_token settings.api_token)) [
        | inl e ↦ rw e p
        | inr e ↦ rw e (request-Secure settings _ _ sent refl p)
      ]
