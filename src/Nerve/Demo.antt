-- ===== src/Nerve/Demo.antt =====
-- Sample data for the tests of the extension.
use elektrine.Base.{String, true, false, Option, none, some, [], ◌∷◌, if◌then◌else◌, ◌===◌, trim}
use elektrine.Nerve.Types.{Url, Env, Entry, Metadata, ok, err}
use elektrine.Nerve.Effects.{State}
use elektrine.Nerve.Crypto.{decrypt_value, stable_json, quote, is_client_payload}
use elektrine.Nerve.Storage.{get_settings, get_staged_fill, clear_staged_fill}
use elektrine.Nerve.Urls.{
  Sender, safe_host, hosts_related, allowed_page_url, assert_content_script_sender,
  assert_extension_page_sender,
}
use elektrine.Nerve.Session.{
  current_session_passphrase, get_nerve_session, expire_session_passphrase_if_needed,
  schedule_session_passphrase_expiry, hydrate_entries, hydrate_entry_metadata,
}
use elektrine.Nerve.Ranking.{entry_allowed_for_page}
use elektrine.Nerve.Fill.{
  fill_entry, load_entry_credentials, resolve_staged_fill, release_credentials,
}
use elektrine.Nerve.Messages.{handle_message}

abbrev pub page_url : String
page_url = "https://a.test/in"

abbrev pub address : String → String → Url
address protocol hostname = record {
  protocol = protocol;
  hostname = hostname;
  pathname = "/";
  search = "";
  origin = "";
}

abbrev pub parse : String → Option Url
parse url =
    if url === page_url
    then some (address "https:" "a.test")
    else if url === "http://[::1]/"
    then some (address "http:" "[::1]")
    else none

abbrev pub sample_entry : Entry
sample_entry = record {
  id = 7;
  title = some "A";
  login_username = some "ann";
  website = some page_url;
  encrypted_metadata = none;
  encrypted_password = some (record {
    algorithm = "AES-GCM";
    iv = some "pw";
    ciphertext =
        some
          "{\"field\":\"password\",\"login_username\":\"ann\",\"purpose\":\"elektrine-nerve-entry\",\"title\":\"A\",\"website\":\"https://a.test/in\"}";
  });
  encrypted_notes = none;
}

abbrev pub sample_metadata : Metadata
sample_metadata = record { title = "Home"; login_username = "ann"; website = page_url }

-- A cipher that keeps its text, and checks the associated data.
abbrev pub demo : Env
demo = record {
  parse_url = parse;
  lower = λ s. s;
  locale_lt = λ x y. false;
  extension_origin = "chrome-extension://x/";
  page_tabs = (some 1, page_url) ∷ (none, page_url) ∷ [];
  list_entries = λ s. ok (record {
    entries = sample_entry ∷ [];
    theme = none;
    master_configured = true;
    master_wrapped_dek = some "dek";
  });
  get_entry = λ s id. ok sample_entry;
  create_entry = λ s a. ok sample_entry;
  update_entry = λ s id a. ok sample_entry;
  unwrap = λ w secret. ok secret;
  derive = λ mdk f. ok mdk;
  encrypt = λ p k ad. (p, ad);
  decrypt = λ iv c k ad. if c === ad then ok iv else err "OperationError";
  stringify = λ m. m.title;
  parse_metadata = λ s. ok sample_metadata;
}

abbrev pub blank : State
blank = record {
  now = 1000;
  passphrase = "";
  expires_at = 0;
  timer = none;
  stored_url = some page_url;
  stored_token = some "ekt_1";
  stored_theme = none;
  stored_passphrase = none;
  staged = [];
  pending = [];
  effects = [];
}

-- Unlocked at 1000, for fifteen minutes.
abbrev pub unlocked : State
unlocked = record blank {
  passphrase = "secret";
  expires_at = 901000;
  timer = some 901000;
  staged = (4, record { entry_id = 7; page_url = page_url; website = ""; staged_at = 900 }) ∷ [];
}

abbrev pub stranger : Sender
stranger = record { tab_id = some 4; url = some "http://evil.test/" }

abbrev pub page_sender : Sender
page_sender = record { tab_id = some 4; url = some page_url }

abbrev pub manager : Sender
manager = record { tab_id = none; url = some "chrome-extension://x/manager.html" }

-- What the worker computes with.
unfoldable pub worker : Unit {0}
unfolding handle_message fill_entry resolve_staged_fill load_entry_credentials get_nerve_session
    get_settings current_session_passphrase expire_session_passphrase_if_needed
    schedule_session_passphrase_expiry hydrate_entries hydrate_entry_metadata entry_allowed_for_page
    safe_host hosts_related decrypt_value stable_json quote trim is_client_payload
    assert_content_script_sender assert_extension_page_sender allowed_page_url get_staged_fill
    clear_staged_fill release_credentials
worker = tt
