-- ===== src/Nerve/Stable/Messages.antt =====
-- Properties of the worker's state over whole messages (handleMessage).
use elektrine.Base.{ℕ, true, Option, arith, text_of}
use elektrine.Nerve.Types.{Env, Result, ok, err, PendingSave}
use elektrine.Nerve.Effects.{M, State, run_with, ◌>>=◌}
use elektrine.Nerve.Storage.{get_settings, get_pending_save}
use elektrine.Nerve.Urls.{Sender}
use elektrine.Nerve.Save.{resolve_pending, resolve_pending_save, save_pending, save_pending_entry}
use elektrine.Nerve.Messages.{
  Message, open_options, open_manager, get_theme, get_inline_state, get_suggestions, fill,
  stage_fill, resolve_fill, clear_fill, record_login, resolve_save, save_login, dismiss_save,
  unlock, get_passphrase, set_passphrase, clear_passphrase, unsupported, theme_state, page_case,
  handle_message,
}
use elektrine.Nerve.Stable

module _ (P : State → Type 0) (env : Env) where
  -- The two functions that first read the pending save.
  after_pending-Keeps :
      {A : Type 0} (tab : Option ℕ) (f : Option PendingSave → M A)
      → Stable.Survives P tab
      → ((o : Option PendingSave) → Stable.Keeps P (f o))
      → Stable.Keeps P (get_pending_save tab >>= f)
  after_pending-Keeps tab f h hf s p =
      after (get_pending_save tab s) (Stable.get_pending-Keeps P env h s p)
    where
      after : (r : Result (Option PendingSave) × State) → P r.1 → P (run_with r f).1
      after (ok o, t) q = hf o t q
      after (err e, t) q = q

  module _ (tab : Option ℕ) (h : Stable.Survives P tab) where
    page_case-Keeps : (m : Message) → Stable.Keeps P (page_case env m tab)
    unfolding theme_state get_settings resolve_pending_save save_pending_entry
    page_case-Keeps open_manager s p = h.on_effect s _ p
    page_case-Keeps get_theme s p = p
    page_case-Keeps get_inline_state s p =
        ground (arith, Stable.get_nerve_session-Keeps P env h s p)
    page_case-Keeps (get_suggestions u q) s p =
        ground (arith, Stable.suggestions-Keeps P env h u q s p)
    page_case-Keeps (fill id u) s p = ground (arith, Stable.fill_entry-Keeps P env h id u s p)
    page_case-Keeps (stage_fill r) s p = ground (arith, Stable.stage-Keeps P env h r s p)
    page_case-Keeps (resolve_fill page) s p =
        ground (arith, Stable.resolve_staged-Keeps P env h page s p)
    page_case-Keeps clear_fill s p = ground (arith, Stable.clear_staged-Keeps P env h s p)
    page_case-Keeps (record_login r) s p =
        ground (arith, Stable.record_submission-Keeps P env h r s p)
    page_case-Keeps (resolve_save page) s p = ground (
      arith,
      after_pending-Keeps tab (resolve_pending env tab page) h
          (Stable.resolve_pending-Keeps P env h page) s p,
    )
    page_case-Keeps (save_login r) s p = ground (
      arith,
      after_pending-Keeps tab (save_pending env tab r) h (Stable.save_pending-Keeps P env h r) s p,
    )
    page_case-Keeps dismiss_save s p = ground (arith, Stable.clear_pending-Keeps P env h s p)
    page_case-Keeps (unlock secret) s p =
        ground (arith, Stable.unlock_session-Keeps P env h secret s p)
    page_case-Keeps open_options s p = p
    page_case-Keeps get_passphrase s p = p
    page_case-Keeps (set_passphrase secret) s p = p
    page_case-Keeps clear_passphrase s p = p
    page_case-Keeps unsupported s p = p

  -- The message of a sender makes writes for the sender's tab only.
  pub handle_message-Keeps :
      (m : Message) (sender : Sender)
      → Stable.Survives P sender.tab_id
      → Stable.Keeps P (handle_message env m sender)
  unfolding handle_message
  handle_message-Keeps open_options sender h s p = h.on_effect s _ p
  handle_message-Keeps get_passphrase sender h s p =
      ground (arith, Stable.current_passphrase-Keeps P env h s p)
  handle_message-Keeps (set_passphrase secret) sender h s p =
      ground (arith, Stable.store_passphrase-Keeps P env h (text_of secret) s p)
  handle_message-Keeps clear_passphrase sender h s p =
      ground (arith, Stable.clear_runtime-Keeps P env h true s p)
  handle_message-Keeps unsupported sender h s p = p
  handle_message-Keeps m sender h s p = ground (arith, page_case-Keeps sender.tab_id h m s p)
