-- ===== src/Capture/Types.antt =====
-- The values of a capture, and the platform under it.
use elektrine.Base.{ℕ, String, Bool, Option}
use elektrine.Base.Effects.{Result}
use elektrine.Nerve.Types.{Env as WorkerEnv}
use elektrine.Api.Types.{Env as ApiEnv}

-- What `response.blob()` gives: the bytes, and `type`.
pub record Blob : Type 0 where
  pub content : String
  pub kind : String

-- An answer, with the headers that are read; `blob` may reject.
pub record Response : Type 0 where
  pub ok : Bool
  pub status : ℕ
  pub content_length : Option String
  pub content_type : Option String
  pub content_disposition : Option String
  pub blob : Result Blob

-- What the browser tells about a click in the context menu, and about its tab.
pub record Info : Type 0 where
  pub menu_item_id : String
  pub page_url : Option String
  pub selection_text : Option String
  pub src_url : Option String
  pub link_url : Option String

pub record Tab : Type 0 where
  pub url : Option String
  pub title : Option String

-- The platforms of the worker and of lib/api.js, and: `decodeURIComponent`, `none` where it
-- throws; `Number.parseInt` to base ten, `none` where that is not finite or is negative; a time in
-- ISO 8601; a number in digits; the bytes of a blob; `fetch` with HEAD and with GET, without
-- credentials; and whether `chrome.action` can show a badge, and colour it.
pub record Platform : Type 0 where
  pub worker : WorkerEnv
  pub api : ApiEnv
  pub decode_uri : String → Option String
  pub parse_int : String → Option ℕ
  pub iso_string : ℕ → String
  pub size : String → ℕ
  pub head : String → Result Response
  pub download : String → Result Response
  pub has_badge : Bool
  pub has_badge_color : Bool
