-- ===== src/Nerve/Tests.antt =====
-- The worker's events, its senders, and filling, on concrete data.
mod Saving
use mathlib.Core.List.{Perm}
use elektrine.Base.{
  ℕ, ◌≡◌, ◌≢◌, refl, String, true, false, Option, some, [], ◌∷◌, arith, IsSorted, All, keep_if,
  text_of, truthy, find, ◌==◌,
}
use elektrine.Nerve.Types.{Entry, ok, err}
use elektrine.Nerve.Urls.{
  safe_host, not_allowed, allowed_page_url, assert_content_script_sender,
  assert_extension_page_sender,
}
use elektrine.Nerve.Session.{Session, ready, current_session_passphrase, get_nerve_session}
use elektrine.Nerve.Ranking.{query_text, ranks_before, rank_entries, scored, not_negative}
use elektrine.Nerve.Ranking.Laws.{Fits, rank_entries_lem}
use elektrine.Nerve.Fill.{
  Credentials, Page, filled, fill_entry, load_entry_credentials, resolve_staged_fill,
}
use elektrine.Nerve.Fill.Release.{fill_entry-same_host}
use elektrine.Nerve.Messages.{
  get_passphrase, passphrase, credentials, staged_answer, fill, resolve_fill, clear_passphrase,
  handle_message,
}
use elektrine.Nerve.Worker.{message, tab_removed, timeout}
use elektrine.Nerve.Worker.Expiry.{IsFresh, after_silence, run_silence}
use elektrine.Nerve.Worker.Senders.{
  handle_message-stranger, handle_message-passphrase, handle_message-credentials,
}
use elektrine.Nerve.Demo.{
  page_url, sample_entry, demo, unlocked, stranger, page_sender, manager, worker,
}

unlocked-IsFresh : IsFresh unlocked
unlocked-IsFresh = record { idle = λ e. cc; armed = λ e. (refl, omega arith, omega arith) }

run_silence_example :
    ((current_session_passphrase demo
        (after_silence demo unlocked (message get_passphrase manager ∷ []) 900000)).0
      ≡ ok "")
    × ((current_session_passphrase demo
          (after_silence demo unlocked (message get_passphrase manager ∷ []) 900000)).1.passphrase
        ≡ "")
    × ((r : Session)
        → (get_nerve_session demo
            (after_silence demo unlocked (message get_passphrase manager ∷ []) 900000)).0
          ≡ ok r
        → r.status ≢ ready)
run_silence_example =
    run_silence demo unlocked (message get_passphrase manager ∷ []) 900000 unlocked-IsFresh
      (omega arith)

abbrev ann : Credentials
ann = record { username = "ann"; password = "pw"; notes = "" }

fills : (fill_entry demo 7 page_url unlocked).0 ≡ ok ann
unfolding worker
fills = refl

fill_entry-same_host_example :
    (r : Session) × ((get_nerve_session demo unlocked).0 ≡ ok r)
    × (r.status ≡ ready)
    × ((entry : Entry) × (find (λ e. e.id == 7) r.entries ≡ some entry)
        × (truthy (safe_host demo page_url) ≡ true)
        × (safe_host demo page_url ≡ safe_host demo (text_of entry.website)))
    × (load_entry_credentials demo r 7 ≡ ok ann)
fill_entry-same_host_example = fill_entry-same_host demo unlocked 7 page_url ann fills

abbrev login_page : Page
login_page = record { url = page_url; has_visible_password_field = true }

handle_message-stranger_example :
    handle_message demo clear_passphrase stranger unlocked ≡ (err not_allowed, unlocked)
unfolding assert_content_script_sender assert_extension_page_sender allowed_page_url
handle_message-stranger_example =
    handle_message-stranger demo clear_passphrase stranger unlocked refl refl (λ e. cc)

asks : (handle_message demo get_passphrase manager unlocked).0 ≡ ok (passphrase "secret")
unfolding worker
asks = refl

handle_message-passphrase_example :
    (get_passphrase ≡ get_passphrase) × (assert_extension_page_sender demo manager ≡ ok tt)
handle_message-passphrase_example =
    handle_message-passphrase demo get_passphrase manager unlocked "secret" asks

handle_message-credentials_example :
    ((handle_message demo (fill 7 page_url) page_sender unlocked).0 ≡ ok (credentials ann)
      → (allowed_page_url demo page_sender.url ≡ true)
        × ((id : ℕ) × (u : String) × (fill 7 page_url ≡ fill id u)
            × ((fill_entry demo id u unlocked).0 ≡ ok ann)))
    × ((id : ℕ)
        → (handle_message demo (fill 7 page_url) page_sender unlocked).0
          ≡ ok (staged_answer (filled id ann))
        → (allowed_page_url demo page_sender.url ≡ true)
          × ((page : Option Page) × (fill 7 page_url ≡ resolve_fill page)
              × ((resolve_staged_fill demo page_sender.tab_id page unlocked).0
                  ≡ ok (filled id ann))))
handle_message-credentials_example =
    handle_message-credentials demo (fill 7 page_url) page_sender unlocked ann

rank_entries_lem_example :
    IsSorted (ranks_before demo) (rank_entries demo (sample_entry ∷ []) page_url "A")
    × All (Fits demo (query_text demo "A")) (rank_entries demo (sample_entry ∷ []) page_url "A")
    × Perm
        (rank_entries demo (sample_entry ∷ []) page_url "A")
        (keep_if (λ r. not_negative r.score) (scored demo (sample_entry ∷ []) page_url "A"))
rank_entries_lem_example = rank_entries_lem demo (sample_entry ∷ []) page_url "A" (λ x y e. refl)
