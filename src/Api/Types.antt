-- ===== src/Api/Types.antt =====
-- The values that api.js handles, and the platform under it.
use elektrine.Base.{ℕ, String, Bool, Option, List}

-- A value of JSON. A number is its text, and whether it is zero.
mutual
  pub data Json : Type 0 where
    null : Json
    boolean : Bool → Json
    number : (text : String) (is_zero : Bool) → Json
    text : String → Json
    array : Items → Json
    object : Fields → Json

  pub data Items : Type 0 where
    no_items : Items
    item : Json → Items → Items

  pub data Fields : Type 0 where
    no_fields : Fields
    field : String → Json → Fields → Fields

-- The parts of a parsed URL that are read; the rest stays in `parsed`.
pub record Url : Type 0 where
  pub protocol : String
  pub hostname : String
  pub pathname : String
  pub parsed : String

-- A `File`: its name, where there is one, its content and its type.
pub record File : Type 0 where
  pub name : Option String
  pub content : String
  pub kind : String

-- An entry of a `FormData`.
pub data FormEntry : Type 0 where
  text_entry : (field value : String) → FormEntry
  file_entry : (field filename : String) → File → FormEntry

pub data Body : Type 0 where
  no_body : Body
  json_body : Json → Body
  form_body : List FormEntry → Body

-- What is given to `fetch`.
pub record Fetch : Type 0 where
  pub url : String
  pub method : String
  pub authorization : Option String
  pub content_type : Option String
  pub body : Body

-- What `fetch` answers; `response.json()` throws as `none`.
pub record Response : Type 0 where
  pub ok : Bool
  pub status : ℕ
  pub payload : Option Json

-- The platform: `new URL`; a URL with another pathname, and without hash and search; its
-- `toString`; a number, and a value of JSON, turned into a string; and what `fetch` answers,
-- `none` where it rejects.
pub record Env : Type 0 where
  pub parse_url : String → Option Url
  pub bare_url : Url → String → Url
  pub show_url : Url → String
  pub decimal : ℕ → String
  pub to_text : Json → String
  pub fetch : Fetch → Option Response
