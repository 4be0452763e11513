-- ===== src/Nerve/Save.antt =====
-- background.js: a submitted login is recorded for its tab, offered for saving on the next page,
-- and saved as an encrypted entry.

pub mod Offer
pub mod RoundTrip
use elektrine.Base.{
  ℕ, ◌-◌, ◌*◌, String, Bool, true, false, not, ◌&&◌, Option, none, some, ltb, if◌then◌else◌, truthy,
  or_text, text_of, is_some, trim, ◌===◌,
}
use elektrine.Nerve.Types.{Entry, Env, PendingSave, Metadata, Attrs, metadata, Result}
use elektrine.Nerve.Effects.{M, ◌>>=◌, ◌>>◌, pure, throw, lift, get}
use elektrine.Nerve.Crypto.{encrypt_value, entry_associated_data}
use elektrine.Nerve.Storage.{
  truthy_id, get_pending_save, set_pending_save, clear_pending_save, clear_staged_fill,
}
use elektrine.Nerve.Urls.{safe_host, origin_from_url, default_title, looks_like_login_url}
use elektrine.Nerve.Session.{Session, Status, get_nerve_session}
use elektrine.Nerve.Ranking.{find_existing_entry}
use elektrine.Nerve.Fill.{Page, is_ready, is_foreign, fill_blocked_message}

abbrev pub pending_save_expiry : ℕ
pending_save_expiry = 5 * 60 * 1000

pub record Submission : Type 0 where
  pub submit_url : String
  pub website : String
  pub username : String
  pub password : String
  pub page_title : String
  pub skip_save : Bool

pub record Prompt : Type 0 where
  pub mode : String
  pub entry_id : Option ℕ
  pub title : String
  pub username : String
  pub website : String

pub data PendingAnswer : Type 0 where
  nothing : PendingAnswer
  prompt : Status → Prompt → PendingAnswer

-- The user's choices in the prompt; an absent string is empty.
pub record SaveRequest : Type 0 where
  pub entry_id : Option ℕ
  pub title : String
  pub username : String
  pub website : String

pub record Saved : Type 0 where
  pub mode : String
  pub entry : Entry

abbrev existing_id : Option Entry → Option ℕ
existing_id none = none
existing_id (some e) = truthy_id (some e.id)

abbrev existing_text : (Entry → Option String) → Option Entry → String
existing_text field none = ""
existing_text field (some e) = text_of (field e)

module _ (env : Env) where
  abbrev pub record_at : Option ℕ → Option Submission → M Bool
  record_at tab none = pure false
  record_at tab (some p) = do
    s ← get
    if truthy p.password && not p.skip_save
        then (do
          set_pending_save tab (record {
            submit_url = p.submit_url;
            website = p.website;
            username = p.username;
            password = p.password;
            page_title = p.page_title;
            recorded_at = s.now;
          })
          pure true)
        else pure false

  unfoldable pub record_submission : Option ℕ → Option Submission → M Bool
  record_submission tab payload =
      if is_some (truthy_id tab) then record_at tab payload else pure false

  abbrev prompts_on : PendingSave → Page → Bool
  prompts_on pending page =
      if is_foreign (safe_host env page.url) (safe_host env pending.submit_url)
      then false
      else if page.has_visible_password_field
      then not (page.url === pending.submit_url) && not (looks_like_login_url env page.url)
      else true

  unfoldable pub should_prompt_for_pending_save : PendingSave → Option Page → Bool
  should_prompt_for_pending_save pending none = false
  should_prompt_for_pending_save pending (some page) =
      if truthy page.url then prompts_on pending page else false

  abbrev pub prompt_for : PendingSave → Option Entry → Prompt
  prompt_for pending existing = record {
    mode = if is_some existing then "update" else "save";
    entry_id = existing_id existing;
    title = or_text (existing_text (λ e. e.title) existing) (default_title env pending);
    username = or_text pending.username (existing_text (λ e. e.login_username) existing);
    website = or_text pending.website (
        or_text (existing_text (λ e. e.website) existing) (origin_from_url env pending.submit_url));
  }

  abbrev pub resolve_pending : Option ℕ → Option Page → Option PendingSave → M PendingAnswer
  resolve_pending tab page none = pure nothing
  resolve_pending tab page (some pending) = do
    s ← get
    if ltb pending_save_expiry (s.now - pending.recorded_at)
        then (do clear_pending_save tab; pure nothing)
        else if should_prompt_for_pending_save pending page
        then (do
          session ← get_nerve_session env
          pure (
              prompt session.status
                (prompt_for pending (find_existing_entry env session.entries pending))))
        else pure nothing

  unfoldable pub resolve_pending_save : Option ℕ → Option Page → M PendingAnswer
  resolve_pending_save tab page = do
    pending ← get_pending_save tab
    resolve_pending tab page pending

  unfoldable pub metadata_of : PendingSave → SaveRequest → Metadata
  metadata_of pending payload = record {
    title = trim (or_text payload.title (default_title env pending));
    login_username = trim (or_text payload.username pending.username);
    website = trim (
        or_text payload.website (or_text pending.website (origin_from_url env pending.submit_url)));
  }

  -- What the server is sent: the metadata and the password are ciphertext.
  unfoldable pub encrypted_attrs : Metadata → String → String → Attrs
  encrypted_attrs m password key = record {
    title = "Encrypted entry";
    login_username = "";
    website = "";
    encrypted_metadata = encrypt_value env (env.stringify m) key metadata;
    encrypted_password =
        encrypt_value env password key
          (entry_associated_data m.title m.login_username m.website "password");
  }

  abbrev send_entry : Session → Option ℕ → Attrs → Result Entry
  send_entry session none attrs = env.create_entry session.settings attrs
  send_entry session (some id) attrs = env.update_entry session.settings id attrs

  abbrev pub save_pending : Option ℕ → SaveRequest → Option PendingSave → M Saved
  save_pending tab payload none = throw "There is no pending login to save."
  save_pending tab payload (some pending) = do
    session ← get_nerve_session env
    if is_ready session.status then pure tt else throw (fill_blocked_message session.status)
    entry ← lift (
        send_entry session (truthy_id payload.entry_id)
          (encrypted_attrs (metadata_of pending payload) pending.password session.key))
    clear_pending_save tab
    pure (record {
      mode = if is_some (truthy_id payload.entry_id) then "update" else "save";
      entry = entry;
    })

  unfoldable pub save_pending_entry : Option ℕ → SaveRequest → M Saved
  save_pending_entry tab payload = do
    pending ← get_pending_save tab
    save_pending tab payload pending

unfoldable pub cleanup_tab_state : Option ℕ → M (Unit {0})
cleanup_tab_state tab = do clear_pending_save tab; clear_staged_fill tab
