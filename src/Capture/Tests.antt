-- ===== src/Capture/Tests.antt =====
-- Captures on a platform with one remote file.
use elektrine.Base.{
  ◌≡◌, refl, String, true, false, none, some, [], ◌∷◌, map, All, truthy, trim, is_space,
  if◌then◌else◌,
}
use elektrine.Base.Effects.{ok}
use elektrine.Nerve.Demo.{page_url, demo as worker_demo, blank}
use elektrine.Api.Types.{Env, Url, null}
use elektrine.Nerve.Urls.{allowed_remote_file_url}
use elektrine.Api.Address.{normalize_server_url}
use elektrine.Api.Request.{request, authorization_of}
use elektrine.Capture.Types.{Platform, Response, Info}
use elektrine.Capture.Selection.{normalize_selection, has_empty_line, normalize_selection-apart}
use elektrine.Capture.Filename.{
  sanitize_download_filename, filename_from_content_disposition, download_filename,
}
use elektrine.Capture.Acts.{
  settings_in, Act, head_request, download_request, server, warning, badge_text, badge_color,
  badge_cleared_later,
}
use elektrine.Capture.RemoteFile.{verify_remote_file_size, capture_file_to_kairo}
use elektrine.Capture.RemoteFile.Bounds.{IsAllowed, capture_file_to_kairo-AllAllowed}

sanitize_download_filename_tests :
    (sanitize_download_filename "../a\\b\n c.txt " ≡ "b c.txt")
    × (sanitize_download_filename "a/" ≡ "kairo-file")
unfolding sanitize_download_filename
sanitize_download_filename_tests = (refl, refl)

abbrev address : Url
address = record { protocol = "https:"; hostname = "a.test"; pathname = "/"; parsed = "" }

abbrev api_demo : Env
api_demo = record {
  parse_url = λ s. some address;
  bare_url = λ u pathname. u;
  show_url = λ u. "https://a.test/";
  decimal = λ n. "404";
  to_text = λ v. "1";
  fetch = λ f. some (record { ok = true; status = 200; payload = some null });
}

-- The length is above the limit, the file is not.
abbrev response : Response
response = record {
  ok = true;
  status = 200;
  content_length = some "x";
  content_type = some "application/pdf; q=1";
  content_disposition = some "attachment; FileName*=utf-8''\"a%2Fb\"; filename=c.txt";
  blob = ok (record { content = "pdf"; kind = "" });
}

abbrev demo : Platform
demo = record {
  worker = worker_demo;
  api = api_demo;
  decode_uri = λ s. some s;
  parse_int = λ s. if truthy s then some 26214401 else none;
  iso_string = λ n. "now";
  size = λ s. 26214400;
  head = λ url. ok response;
  download = λ url. ok (record response { content_length = none });
  has_badge = true;
  has_badge_color = false;
}

abbrev click : Info
click = record {
  menu_item_id = "kairo-capture-file";
  page_url = none;
  selection_text = none;
  src_url = none;
  link_url = some page_url;
}

filename_tests :
    (filename_from_content_disposition demo "attachment; FileName*=utf-8''\"a%2Fb\"; x" ≡ "a%2Fb")
    × (filename_from_content_disposition demo "inline; filename=\"c d.txt\"; x" ≡ "c d.txt")
    × (download_filename demo page_url response "application/pdf" ≡ "a%2Fb.pdf")
unfolding filename_from_content_disposition download_filename
filename_tests = (refl, refl, refl)

normalize_selection-apart_example : has_empty_line (normalize_selection "one\n\n\n\ntwo") ≡ false
normalize_selection-apart_example = normalize_selection-apart "one\n\n\n\ntwo"

capture_file_to_kairo-AllAllowed_example :
    All (IsAllowed demo) (capture_file_to_kairo demo blank click)
capture_file_to_kairo-AllAllowed_example = capture_file_to_kairo-AllAllowed demo blank click

abbrev kind_of : Act → String
kind_of (head_request url) = "head"
kind_of (download_request url) = "download"
kind_of (server f) = f.url
kind_of (warning t) = t
kind_of (badge_text t) = t
kind_of (badge_color c) = c
kind_of badge_cleared_later = "timer"

capture_file_to_kairo_test :
    map kind_of (capture_file_to_kairo demo blank click)
    ≡ "head" ∷ "download" ∷ "https://a.test/api/ext/v1/kairo/sources" ∷ "OK" ∷ "timer" ∷ []
unfolding capture_file_to_kairo settings_in allowed_remote_file_url verify_remote_file_size
    download_filename trim is_space request normalize_server_url authorization_of
capture_file_to_kairo_test = refl
