-- ===== src/Nerve/Tests/Saving.antt =====
-- Recording, offering and saving a login, on concrete data.
use elektrine.Base.{◌≡◌, refl, true, false, none, some, [], ◌∷◌, arith, eq_iff, eq_refl, trim}
use elektrine.Nerve.Types.{Env, PendingSave, ok, err}
use elektrine.Nerve.Crypto.{encrypt_value}
use elektrine.Nerve.Storage.{set_pending_save}
use elektrine.Nerve.Urls.{safe_host, default_title, origin_from_url}
use elektrine.Nerve.Session.{Session, ready, get_nerve_session}
use elektrine.Nerve.Fill.{Page, load_entry_credentials, is_foreign}
use elektrine.Nerve.Save.{
  Submission, SaveRequest, record_submission, should_prompt_for_pending_save, metadata_of,
  encrypted_attrs,
}
use elektrine.Nerve.Save.Offer.{pending_of, later}
use elektrine.Nerve.Save.RoundTrip.{stored, Decrypts, Authenticates, load-save, load-save_blank}
use elektrine.Nerve.Demo.{page_url, sample_entry, demo, unlocked, worker}

-- Saving a login.
abbrev submitted : Submission
submitted = record {
  submit_url = page_url;
  website = page_url;
  username = "ann";
  password = "pw";
  page_title = "A";
  skip_save = false;
}

abbrev next_page : Page
next_page = record { url = page_url; has_visible_password_field = false }

abbrev opened_session : Session
opened_session = record {
  status = ready;
  settings = record { server_url = page_url; api_token = "ekt_1"; theme = none };
  theme = none;
  key = "secret";
  entries = sample_entry ∷ [];
}

opens : (get_nerve_session demo (later demo 3 submitted 5 unlocked)).0 ≡ ok opened_session
unfolding worker record_submission set_pending_save
opens = refl

wants : should_prompt_for_pending_save demo (pending_of submitted 1000) (some next_page) ≡ true
unfolding worker should_prompt_for_pending_save is_foreign
wants = refl

abbrev kept : PendingSave
kept = pending_of submitted 1000

-- A title for the new entry, and one of white space.
abbrev named : SaveRequest
named = record { entry_id = none; title = "Home"; username = "ann"; website = page_url }

abbrev unnamed : SaveRequest
unnamed = record named { title = "  " }

-- A server that holds what was saved, and metadata that reads back.
abbrev holding : SaveRequest → Env
holding request = record demo {
  get_entry = λ settings id.
      ok (stored id (encrypted_attrs demo (metadata_of demo kept request) "pw" "secret"));
  parse_metadata = λ text. ok (metadata_of demo kept request);
}

holding-Decrypts : (request : SaveRequest) → Decrypts (holding request)
holding-Decrypts request = record { open_seal = λ p k ad. simp eq_refl }

holding-Authenticates : (request : SaveRequest) → Authenticates (holding request)
holding-Authenticates request = record {
  reject = λ p k ad other ne. ground (arith, eq_iff ad other);
}

reads_back :
    (request : SaveRequest)
    → ok (metadata_of demo kept request) ≡ ok (metadata_of (holding request) kept request)
unfolding metadata_of default_title safe_host origin_from_url
reads_back request = refl

is_held :
    (request : SaveRequest)
    → ok (stored 8 (encrypted_attrs demo (metadata_of demo kept request) "pw" "secret"))
      ≡ ok (
          stored 8 (
            encrypted_attrs
              (holding request)
              (metadata_of (holding request) kept request)
              "pw"
              "secret"))
unfolding metadata_of default_title safe_host origin_from_url encrypted_attrs encrypt_value
is_held request = refl

load-save_example :
    load_entry_credentials (holding named) opened_session 8
    ≡ ok (record {
      username = (metadata_of (holding named) kept named).login_username;
      password = "pw";
      notes = "";
    })
unfolding metadata_of trim
load-save_example =
    load-save (holding named) opened_session 8 kept named (holding-Decrypts named)
      (reads_back named) (is_held named) refl

load-save_blank_example :
    load_entry_credentials (holding unnamed) opened_session 8 ≡ err "OperationError"
unfolding metadata_of trim
load-save_blank_example =
    load-save_blank (holding unnamed) opened_session 8 kept unnamed (holding-Decrypts unnamed)
      (reads_back unnamed) (is_held unnamed) (holding-Authenticates unnamed) refl
