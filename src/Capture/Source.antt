-- ===== src/Capture/Source.antt =====
-- lib/kairo_capture.js: a captured page or selection as a source (kairoSourceAttrs), and the
-- text of an error (kairoErrorMessage).
use elektrine.Base.{
  String, Bool, ◌||◌, Option, none, some, ◌===◌, if◌then◌else◌, truthy, or_text, trim, concat,
  is_some,
}
use elektrine.Nerve.Types.{Url, Env}
use elektrine.Api.Types.{Json, text, array, object, no_items, item, no_fields, field}
use elektrine.Capture.Selection.{normalize_selection}
use elektrine.Capture.Filename.{search_for, after_marker}

pub record Capture : Type 0 where
  pub url : String
  pub title : String
  pub selection_text : String

abbrev hostname_in : Option Url → String
hostname_in none = ""
hostname_in (some u) = if u.protocol === "http:" || u.protocol === "https:" then u.hostname else ""

abbrev tags : Json
tags = array (item (text "capture") (item (text "browser-extension") no_items))

abbrev selection_source : (page_title url content captured_at : String) → Json
selection_source page_title url content captured_at = object (
    field "source_type" (text "text") (
      field "title" (text (concat "Selection from " page_title)) (
        field "url" (text url) (
          field "content" (text content) (
            field "content_format" (text "text") (
              field "tags" tags (
                field "metadata"
                  (object (
                    field "capture_type" (text "selection") (
                      field "captured_at" (text captured_at) (
                        field "page_title" (text page_title)
                          (field "source" (text "nerve-extension") no_fields)))))
                  no_fields)))))))

abbrev page_source : (page_title url captured_at : String) → Json
page_source page_title url captured_at = object (
    field "source_type" (text "url") (
      field "title" (text page_title) (
        field "url" (text url) (
          field "tags" tags (
            field "metadata"
              (object (
                field "capture_type" (text "page") (
                  field "captured_at" (text captured_at)
                    (field "source" (text "nerve-extension") no_fields))))
              no_fields)))))

abbrev pub kairo_source_attrs : Env → (captured_at : String) → Capture → Json
kairo_source_attrs env captured_at capture =
    let selected_text = normalize_selection capture.selection_text in
    let page_title =
      trim (
        or_text capture.title
          (or_text (hostname_in (env.parse_url capture.url)) "Captured page")) in
    if truthy selected_text
    then selection_source page_title capture.url selected_text captured_at
    else page_source page_title capture.url captured_at

-- `/text/i.test(message)`
abbrev tells_of : String → String → Bool
tells_of marker message = is_some (search_for (after_marker marker) message)

abbrev pub kairo_error_message : String → String
kairo_error_message error =
    let message = or_text error "Could not capture to Kairo." in
    if tells_of "scope" message
      || tells_of "forbidden" message
      || tells_of "unauthorized" message
      || tells_of "write:kairo" message
      || tells_of "403" message
      || tells_of "401" message
    then "Reconnect the extension in settings so it can capture to Kairo."
    else message
