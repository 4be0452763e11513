-- ===== src/Nerve/Messages.antt =====
-- background.js: `handleMessage`, the one entry of the content scripts and of the extension's own
-- pages, and the other events of the worker.
use elektrine.Base.{ℕ, String, Bool, true, Option, none, List, if◌then◌else◌, truthy, text_of}
use elektrine.Nerve.Types.{Env}
use elektrine.Nerve.Effects.{M, options_page, manager_page, ◌>>=◌, ◌>>◌, pure, throw, lift, emit}
use elektrine.Nerve.Storage.{get_settings, truthy_id, clear_pending_save, clear_staged_fill}
use elektrine.Nerve.Urls.{Sender, assert_content_script_sender, assert_extension_page_sender}
use elektrine.Nerve.Session.{
  Status, clear_runtime_session_passphrase, current_session_passphrase, get_nerve_session,
  store_passphrase, unlock_session,
}
use elektrine.Nerve.Fill.{
  Credentials, Suggestion, Page, FillRequest, StagedAnswer, suggestions, fill_entry,
  stage_entry_fill, resolve_staged_fill,
}
use elektrine.Nerve.Save.{
  Submission, SaveRequest, PendingAnswer, Saved, record_submission, resolve_pending_save,
  save_pending_entry,
}

-- `MESSAGE_TYPES`, each with the fields that its case reads; a passphrase that is no string is
-- `none`.
pub data Message : Type 0 where
  open_options open_manager get_theme get_inline_state : Message
  get_suggestions : (page_url query : String) → Message
  fill : (entry_id : ℕ) (page_url : String) → Message
  stage_fill : FillRequest → Message
  resolve_fill : Option Page → Message
  clear_fill : Message
  record_login : Option Submission → Message
  resolve_save : Option Page → Message
  save_login : SaveRequest → Message
  dismiss_save : Message
  unlock : (passphrase : String) → Message
  get_passphrase : Message
  set_passphrase : Option String → Message
  clear_passphrase : Message
  unsupported : Message

pub data Reply : Type 0 where
  opened cleared dismissed unlocked stored : Reply
  theme : Option String → Reply
  inline_state : Status → Option String → Reply
  suggested : Status → List Suggestion → Reply
  credentials : Credentials → Reply
  staged recorded : Bool → Reply
  staged_answer : StagedAnswer → Reply
  pending_answer : PendingAnswer → Reply
  saved : Saved → Reply
  passphrase : String → Reply

module _ (env : Env) where
  unfoldable pub theme_state : M (Option String)
  theme_state = do
    settings ← get_settings
    pure (if truthy settings.api_token then settings.theme else none)

  abbrev from_page : {A : Type 0} → Sender → M A → M A
  from_page sender body = do lift (assert_content_script_sender env sender); body

  abbrev from_extension : {A : Type 0} → Sender → M A → M A
  from_extension sender body = do lift (assert_extension_page_sender env sender); body

  abbrev answer : {A : Type 0} → (A → Reply) → M A → M Reply
  answer f m = m >>= λ a. pure (f a)

  -- A page's message, after the check of its sender.
  abbrev pub page_case : Message → Option ℕ → M Reply
  page_case open_manager tab = do emit (manager_page (truthy_id tab)); pure opened
  page_case get_theme tab = answer theme theme_state
  page_case get_inline_state tab =
      answer (λ r. inline_state r.status r.theme) (get_nerve_session env)
  page_case (get_suggestions page_url query) tab =
      answer (λ r. suggested r.0 r.1) (suggestions env page_url query)
  page_case (fill entry_id page_url) tab = answer credentials (fill_entry env entry_id page_url)
  page_case (stage_fill payload) tab = answer staged (stage_entry_fill env tab payload)
  page_case (resolve_fill page) tab = answer staged_answer (resolve_staged_fill env tab page)
  page_case clear_fill tab = do clear_staged_fill tab; pure cleared
  page_case (record_login payload) tab = answer recorded (record_submission env tab payload)
  page_case (resolve_save page) tab = answer pending_answer (resolve_pending_save env tab page)
  page_case (save_login payload) tab = answer saved (save_pending_entry env tab payload)
  page_case dismiss_save tab = do clear_pending_save tab; pure dismissed
  page_case (unlock secret) tab = do unlock_session env secret; pure unlocked
  page_case _ tab = throw "Unsupported message type."

  unfoldable pub handle_message : Message → Sender → M Reply
  handle_message open_options sender = do emit options_page; pure opened
  handle_message get_passphrase sender =
      from_extension sender (answer passphrase (current_session_passphrase env))
  handle_message (set_passphrase secret) sender =
      from_extension sender (do store_passphrase env (text_of secret); pure stored)
  handle_message clear_passphrase sender =
      from_extension sender (do clear_runtime_session_passphrase env true; pure cleared)
  handle_message unsupported sender = throw "Unsupported message type."
  handle_message message sender = from_page sender (page_case message sender.tab_id)
