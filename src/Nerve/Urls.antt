-- ===== src/Nerve/Urls.antt =====
-- background.js: what the worker reads off a URL, and which senders it listens to.
use elektrine.Base.{
  ℕ, zero, suc, String, Bool, true, false, ◌&&◌, ◌||◌, Option, none, some, if◌then◌else◌, ◌===◌,
  truthy, or_text, text_of, concat, drop_chars, includes, starts_with,
}
use elektrine.Nerve.Types.{Url, Env, Result, ok, err, PendingSave}

-- `MessageSender`: the tab's id and the page's address, where the browser gives them.
pub record Sender : Type 0 where
  pub tab_id : Option ℕ
  pub url : Option String

abbrev pub not_allowed : String
not_allowed = "Message is not allowed from this sender."

abbrev hostname_of : Option Url → String
hostname_of none = ""
hostname_of (some u) = u.hostname

abbrev origin_of : Option Url → String
origin_of none = ""
origin_of (some u) = u.origin

abbrev pub is_allowed_page : Option Url → Bool
is_allowed_page none = false
is_allowed_page (some u) =
    (u.protocol === "https:" || u.protocol === "http:")
    && (u.protocol === "https:"
        || u.hostname === "localhost"
        || u.hostname === "127.0.0.1"
        || u.hostname === "::1")

abbrev pub is_local_http : Url → Bool
is_local_http u =
    u.protocol === "http:"
    && (u.hostname === "localhost" || u.hostname === "127.0.0.1" || u.hostname === "[::1]")

abbrev is_remote_file : Option Url → Bool
is_remote_file none = false
is_remote_file (some u) = u.protocol === "https:" || is_local_http u

abbrev names_login : String → Bool
names_login path =
    includes path "login"
    || includes path "signin"
    || includes path "sign-in"
    || includes path "auth"
    || includes path "password"
    || includes path "session"

abbrev is_login_page : (String → String) → Option Url → Bool
is_login_page lower none = false
is_login_page lower (some u) = names_login (lower (concat u.pathname (concat " " u.search)))

abbrev is_present_tab : Option ℕ → Bool
is_present_tab none = false
is_present_tab (some zero) = false
is_present_tab (some (suc n)) = true

abbrev starts_with? : Option String → String → Bool
starts_with? none t = false
starts_with? (some s) t = starts_with s t

module _ (env : Env) where
  unfoldable pub safe_host : String → String
  safe_host url = hostname_of (env.parse_url url)

  unfoldable pub origin_from_url : String → String
  origin_from_url url = origin_of (env.parse_url url)

  unfoldable pub allowed_page_url : Option String → Bool
  allowed_page_url url = is_allowed_page (env.parse_url (text_of url))

  unfoldable pub allowed_remote_file_url : String → Bool
  allowed_remote_file_url value = is_remote_file (env.parse_url value)

  unfoldable pub looks_like_login_url : String → Bool
  looks_like_login_url url = is_login_page env.lower (env.parse_url url)

  -- `host.replace(/^www\./, "")`
  unfoldable pub default_title : PendingSave → String
  unfolding drop_chars
  default_title pending =
      let host = safe_host (or_text pending.website pending.submit_url) in
      if truthy host
      then if starts_with host "www." then drop_chars 4 host else host
      else "Saved Login"

  unfoldable pub assert_content_script_sender : Sender → Result (Unit {0})
  assert_content_script_sender sender =
      if is_present_tab sender.tab_id && allowed_page_url sender.url then ok tt else err not_allowed

  unfoldable pub assert_extension_page_sender : Sender → Result (Unit {0})
  assert_extension_page_sender sender =
      if starts_with? sender.url env.extension_origin then ok tt else err not_allowed

unfoldable pub hosts_related : String → String → Bool
hosts_related left right = left === right
