-- ===== src/Capture/RemoteFile.antt =====
-- background.js: a remote file that is saved (captureFileToKairo and what it calls).
pub mod Head
pub mod Bounds
use elektrine.Base.{
  ℕ, ◌*◌, String, Bool, false, not, Option, none, some, List, [], ltb, ◌==◌, if◌then◌else◌, or_text,
  text_of, trim, concat,
}
use elektrine.Base.Effects.{Result, ok, err, pure, throw, lift, ◌>>=◌, ◌>>◌}
use elektrine.Nerve.Types.{Settings}
use elektrine.Nerve.Effects.{State}
use elektrine.Nerve.Urls.{allowed_remote_file_url}
use elektrine.Api.Types.{Json, File, text, object, Fields, no_fields, field}
use elektrine.Api.Request.{create_kairo_file_source}
use elektrine.Capture.Types.{Platform, Response, Blob, Info}
use elektrine.Capture.Filename.{split_where, first_of, download_filename}
use elektrine.Capture.Acts.{
  Act, head_request, download_request, M, act, require, call, set_action_badge, connected,
  not_connected, reported, settings_in,
}

abbrev pub max_file_bytes : ℕ
max_file_bytes = 25 * 1024 * 1024

abbrev pub too_large : String
too_large = "That file is too large to save to Kairo."

abbrev is_above : Option ℕ → Bool
is_above none = false
is_above (some size) = ltb max_file_bytes size

abbrev normalized_content_type : Platform → Option String → String
normalized_content_type p value =
    p.worker.lower (trim (first_of (split_where (λ c. c == b';') (text_of value))))

module _ (p : Platform) where
  abbrev assert_content_length_within_limit : Option String → M (Unit {0})
  assert_content_length_within_limit value =
      require (not (is_above (p.parse_int (text_of value)))) too_large

  abbrev check_head : Result Response → M (Unit {0})
  check_head (err e) = throw e
  check_head (ok response) =
      if response.ok then assert_content_length_within_limit response.content_length else pure tt

  -- `try { ... } catch (_error) {}`
  abbrev swallow : Result (Unit {0}) × List Act → Result (Unit {0}) × List Act
  swallow (r, acts) = (ok tt, acts)

  unfoldable pub verify_remote_file_size : String → M (Unit {0})
  verify_remote_file_size url acts =
      swallow ((act (head_request url) >> check_head (p.head url)) acts)

  abbrev file_attrs : (filename url captured_at : String) → Fields
  file_attrs filename url captured_at = field "title" (text filename) (
      field "url" (text url) (
        field "tags" (text "capture, browser-extension") (
          field "metadata"
            (object (
              field "capture_type" (text "file") (
                field "captured_at" (text captured_at)
                  (field "source" (text "nerve-extension") no_fields))))
            no_fields)))

  abbrev status_message : Response → String
  status_message response =
      concat "Could not download file (" (concat (p.api.decimal response.status) ").")

  -- The file that is sent, with its name.
  abbrev sent_file : (content_type : String) → Blob → (filename : String) → File
  sent_file content_type blob filename = record {
    name = some filename;
    content = blob.content;
    kind = or_text content_type blob.kind;
  }

  abbrev send_blob : Settings → ℕ → String → Response → Blob → M Json
  send_blob settings now url response blob =
      let content_type = normalized_content_type p response.content_type in
      let filename = download_filename p url response content_type in
      call (
        create_kairo_file_source p.api settings (sent_file content_type blob filename)
          (file_attrs filename url (p.iso_string now)))

  abbrev save_blob : Settings → ℕ → String → Response → Blob → M Json
  save_blob settings now url response blob = do
    require (not (ltb max_file_bytes (p.size blob.content))) too_large
    send_blob settings now url response blob

  -- What follows the answer to the GET.
  abbrev save_response : Settings → ℕ → String → Response → M Json
  save_response settings now url response = do
    require response.ok (status_message response)
    assert_content_length_within_limit response.content_length
    blob ← lift response.blob
    save_blob settings now url response blob

  abbrev fetch_file : Settings → ℕ → String → M Json
  fetch_file settings now url = do
    act (download_request url)
    response ← lift (p.download url)
    save_response settings now url response

  abbrev save_file : Settings → ℕ → Info → M (Unit {0})
  save_file settings now info = do
    require (connected settings) not_connected
    let url = or_text (text_of info.src_url) (text_of info.link_url)
    require (allowed_remote_file_url p.worker url)
        "Only http and https files can be saved to Kairo."
    verify_remote_file_size url
    saved ← fetch_file settings now url
    set_action_badge p "OK" "#6f8b74"

  unfoldable pub capture_file_to_kairo : State → Info → List Act
  capture_file_to_kairo s info =
      reported p "Kairo file capture failed:"
        ((lift (settings_in s) >>= λ settings. save_file settings s.now info) [])
