-- ===== src/Capture/RemoteFile/Bounds.antt =====
-- What a saved file can be, and from where it is fetched.
use elektrine.Base.{
  ◌≡◌, ◌≤◌, arith, ℕ, ltb, String, true, not, some, List, [], All, text_of, or_text,
}
use elektrine.Base.Effects.{lift, ◌>>=◌}
use elektrine.Nerve.Types.{Settings}
use elektrine.Nerve.Effects.{State}
use elektrine.Nerve.Urls.{allowed_remote_file_url}
use elektrine.Api.Types.{
  FormEntry, text_entry, file_entry, Body, no_body, json_body, form_body, Fields,
}
use elektrine.Api.Request.{create_kairo_file_source, file_form}
use elektrine.Api.Sent.{request-All}
use elektrine.Api.Form.Leaves.{append_fields-All}
use elektrine.Capture.Types.{Platform, Response, Blob, Info}
use elektrine.Capture.Filename.{has_extension, download_filename}
use elektrine.Capture.Filename.Named.{IsName, max_name, download_filename-IsName}
use elektrine.Capture.Acts.{
  Act, head_request, download_request, server, warning, badge_text, badge_color,
  badge_cleared_later, act, connected, settings_in, set_action_badge,
}
use elektrine.Capture.Acts.Keeps.{
  Keeps, then-Keeps, lift-Keeps, require-Keeps, act-Keeps, sent-All, IsSilent, reported-All,
  set_action_badge-Keeps,
}
use elektrine.Capture.RemoteFile.{
  max_file_bytes, verify_remote_file_size, save_response, save_file, capture_file_to_kairo,
  file_attrs, sent_file, send_blob, save_blob, fetch_file, normalized_content_type, is_above,
  too_large,
}
use elektrine.Capture.RemoteFile.Head.{verify_remote_file_size-passes}

abbrev form_of : Body → List FormEntry
form_of no_body = []
form_of (json_body v) = []
form_of (form_body es) = es

module _ (p : Platform) where
  abbrev FitsEntry : FormEntry → Type 0
  FitsEntry (text_entry field value) = Unit
  FitsEntry (file_entry field filename file) =
      (p.size file.content ≤ max_file_bytes)
      × IsName max_name filename
      × (has_extension filename ≡ true)

  -- An address that is fetched is one that may be, and a file that is sent fits.
  abbrev pub IsAllowed : Act → Type 0
  IsAllowed (head_request url) = allowed_remote_file_url p.worker url ≡ true
  IsAllowed (download_request url) = allowed_remote_file_url p.worker url ≡ true
  IsAllowed (server f) = All FitsEntry (form_of f.body)
  IsAllowed (warning t) = Unit
  IsAllowed (badge_text t) = Unit
  IsAllowed (badge_color t) = Unit
  IsAllowed badge_cleared_later = Unit

  silent : IsSilent IsAllowed
  silent = record { on_warning = λ t. tt; on_badge = λ t. tt; on_color = λ t. tt; on_timer = tt }

  file_form-fits :
      (name content kind : String) (attrs : Fields)
      → p.size content ≤ max_file_bytes
      → IsName max_name name
      → has_extension name ≡ true
      → All FitsEntry
          (file_form p.api (record { name = some name; content = content; kind = kind }) attrs)
  file_form-fits name content kind attrs h k l =
      rw k.present ((h, k, l), append_fields-All p.api FitsEntry "source" attrs (λ n v. tt))

  below_limit : (n : ℕ) → not (ltb max_file_bytes n) ≡ true → n ≤ max_file_bytes
  below_limit n h = ground (arith, h)

  send_blob-Keeps :
      (settings : Settings) (now : ℕ) (url : String) (response : Response) (blob : Blob)
      → p.size blob.content ≤ max_file_bytes
      → Keeps IsAllowed (send_blob p settings now url response blob)
  send_blob-Keeps settings now url response blob h =
      let content_type = normalized_content_type p response.content_type in
      let filename = download_filename p url response content_type in
      let (named, ends) = download_filename-IsName p url response content_type in
      let attrs = file_attrs p filename url (p.iso_string now) in
      sent-All IsAllowed
        (create_kairo_file_source p.api settings (sent_file p content_type blob filename) attrs [])
        (request-All p.api (λ f. All FitsEntry (form_of f.body)) settings
          "/api/ext/v1/kairo/sources" _ []
          (λ address authorization e.
            file_form-fits filename blob.content (or_text content_type blob.kind) attrs h named
              ends)
          tt)

  save_response-Keeps :
      (settings : Settings) (now : ℕ) (url : String) (response : Response)
      → Keeps IsAllowed (save_response p settings now url response)
  save_response-Keeps settings now url response =
      require-Keeps IsAllowed response.ok _ _ (λ answered.
        require-Keeps IsAllowed (not (is_above (p.parse_int (text_of response.content_length))))
          too_large (lift response.blob >>= save_blob p settings now url response)
          (λ announced.
            lift-Keeps IsAllowed response.blob (save_blob p settings now url response) (λ blob.
              require-Keeps IsAllowed (not (ltb max_file_bytes (p.size blob.content))) too_large
                (send_blob p settings now url response blob)
                (λ small.
                  send_blob-Keeps settings now url response blob
                    (below_limit (p.size blob.content) small)))))

  fetch_file-Keeps :
      (settings : Settings) (now : ℕ) (url : String)
      → allowed_remote_file_url p.worker url ≡ true
      → Keeps IsAllowed (fetch_file p settings now url)
  fetch_file-Keeps settings now url allowed =
      then-Keeps IsAllowed (act (download_request url))
        (λ u. lift (p.download url) >>= save_response p settings now url)
        (act-Keeps IsAllowed (download_request url) allowed)
        (λ u.
          lift-Keeps IsAllowed (p.download url) (save_response p settings now url)
            (save_response-Keeps settings now url))

  verify-Keeps :
      (url : String)
      → allowed_remote_file_url p.worker url ≡ true
      → Keeps IsAllowed (verify_remote_file_size p url)
  verify-Keeps url allowed acts h =
      rw (verify_remote_file_size-passes p url acts)
        (act-Keeps IsAllowed (head_request url) allowed acts h)

  save_file-Keeps :
      (settings : Settings) (now : ℕ) (info : Info)
      → Keeps IsAllowed (save_file p settings now info)
  save_file-Keeps settings now info =
      let url = or_text (text_of info.src_url) (text_of info.link_url) in
      require-Keeps IsAllowed (connected settings) _ _ (λ c.
        require-Keeps IsAllowed (allowed_remote_file_url p.worker url) _ _ (λ allowed.
          then-Keeps IsAllowed (verify_remote_file_size p url)
            (λ u. fetch_file p settings now url >>= λ saved. set_action_badge p "OK" "#6f8b74")
            (verify-Keeps url allowed)
            (λ u.
              then-Keeps IsAllowed (fetch_file p settings now url)
                (λ saved. set_action_badge p "OK" "#6f8b74")
                (fetch_file-Keeps settings now url allowed)
                (λ saved. set_action_badge-Keeps IsAllowed p silent "OK" "#6f8b74"))))

  -- A click on "Save file to Kairo" fetches nothing but an address that may be fetched, and a file
  -- that it sends has 25 MiB at most and a name with an extension, of 125 characters at most and
  -- without a slash, a backslash or a control character, whatever the servers answer.
  pub capture_file_to_kairo-AllAllowed :
      (s : State) (info : Info) → All IsAllowed (capture_file_to_kairo p s info)
  unfolding capture_file_to_kairo
  capture_file_to_kairo-AllAllowed s info =
      reported-All IsAllowed p silent "Kairo file capture failed:" _ (
        lift-Keeps IsAllowed (settings_in s) (λ settings. save_file p settings s.now info)
          (λ settings. save_file-Keeps settings s.now info) [] tt)
