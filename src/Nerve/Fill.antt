-- ===== src/Nerve/Fill.antt =====
-- background.js: suggestions, filling an entry into a page, and a fill that is staged on one page
-- and resolved on the next.
pub mod Release
use elektrine.Base.{
  ℕ, ◌-◌, ◌*◌, String, Bool, true, false, not, ◌&&◌, Option, none, some, List, [], map, take, ltb,
  if◌then◌else◌, truthy, or_text, text_of, is_some, trim, find, ◌==◌, ℤ,
}
use elektrine.Base.Effects.{bind_result}
use elektrine.Nerve.Types.{Entry, Env, AssociatedData, entry_field, StagedFill, Result, ok}
use elektrine.Nerve.Effects.{M, ◌>>=◌, ◌>>◌, pure, throw, lift, get, try_catch}
use elektrine.Nerve.Crypto.{associated_data_of, decrypt_value}
use elektrine.Nerve.Storage.{truthy_id, get_staged_fill, set_staged_fill, clear_staged_fill}
use elektrine.Nerve.Urls.{safe_host, hosts_related}
use elektrine.Nerve.Session.{
  Session, Status, disconnected, unconfigured, locked, ready, get_nerve_session,
  hydrate_entry_metadata,
}
use elektrine.Nerve.Ranking.{Ranked, rank_entries, entry_allowed_for_page}

abbrev pub staged_fill_expiry : ℕ
staged_fill_expiry = 3 * 60 * 1000

pub record Credentials : Type 0 where
  pub username : String
  pub password : String
  pub notes : String

pub record Suggestion : Type 0 where
  pub id : ℕ
  pub title : Option String
  pub login_username : Option String
  pub website : Option String
  pub score : ℤ

-- What the content script reports of its page.
pub record Page : Type 0 where
  pub url : String
  pub has_visible_password_field : Bool

pub record FillRequest : Type 0 where
  pub entry_id : Option ℕ
  pub page_url : String
  pub website : String

-- The answers of `resolveStagedFill`.
pub data StagedAnswer : Type 0 where
  nothing waiting : StagedAnswer
  not_ready : Status → StagedAnswer
  filled : (entry_id : ℕ) → Credentials → StagedAnswer

pub fill_blocked_message : Status → String
fill_blocked_message disconnected = "Sign in to Elektrine in extension settings first."
fill_blocked_message unconfigured = "Set up account-password encryption in Elektrine first."
fill_blocked_message locked = "Unlock Elektrine in the extension manager first."
fill_blocked_message ready = "Elektrine access is not available."

abbrev pub is_ready : Status → Bool
is_ready ready = true
is_ready _ = false

-- The hosts of the page and of the fill are both known and differ.
unfoldable pub is_foreign : String → String → Bool
is_foreign current other = truthy current && truthy other && not (hosts_related current other)

module _ (env : Env) where
  abbrev read_notes : Entry → String → Result String
  read_notes entry key =
      if is_some entry.encrypted_notes
      then decrypt_value env entry.encrypted_notes key (associated_data_of entry "notes")
      else ok ""

  abbrev read_credentials : Entry → String → Result Credentials
  read_credentials entry key =
      bind_result
        (decrypt_value env entry.encrypted_password key (associated_data_of entry "password"))
        λ password. bind_result (read_notes entry key) λ notes.
          ok
            (record { username = text_of entry.login_username; password = password; notes = notes })

  unfoldable pub load_entry_credentials : Session → ℕ → Result Credentials
  load_entry_credentials session entry_id =
      bind_result (env.get_entry session.settings entry_id)
        λ found. read_credentials (hydrate_entry_metadata env found session.key) session.key

  abbrev suggestion_of : Ranked → Suggestion
  suggestion_of r = record {
    id = r.entry.id;
    title = r.entry.title;
    login_username = r.entry.login_username;
    website = r.entry.website;
    score = r.score;
  }

  unfoldable pub suggestions : String → String → M (Status × List Suggestion)
  suggestions page_url query = do
    session ← get_nerve_session env
    pure (
      session.status,
      if is_ready session.status
          then map suggestion_of (take 6 (rank_entries env session.entries page_url query))
          else [],
    )

  abbrev fill_found : Session → ℕ → String → Option Entry → M Credentials
  fill_found session entry_id page_url none = throw "The selected entry is not available."
  fill_found session entry_id page_url (some entry) =
      if entry_allowed_for_page env entry page_url
      then lift (load_entry_credentials session entry_id)
      else throw "This nerve entry is not saved for the current site."

  unfoldable pub fill_entry : ℕ → String → M Credentials
  fill_entry entry_id page_url = do
    session ← get_nerve_session env
    if is_ready session.status
        then fill_found session entry_id page_url (find (λ e. e.id == entry_id) session.entries)
        else throw (fill_blocked_message session.status)

  abbrev pub stage_at : Option ℕ → Option ℕ → FillRequest → M Bool
  stage_at tab none payload = pure false
  stage_at tab (some id) payload = do
    s ← get
    set_staged_fill tab (record {
      entry_id = id;
      page_url = payload.page_url;
      website = payload.website;
      staged_at = s.now;
    })
    pure true

  unfoldable pub stage_entry_fill : Option ℕ → FillRequest → M Bool
  stage_entry_fill tab payload =
      if is_some (truthy_id tab)
      then stage_at tab (truthy_id payload.entry_id) payload
      else pure false

  abbrev pub give_up : Option ℕ → M StagedAnswer
  give_up tab = do clear_staged_fill tab; pure nothing

  unfoldable pub release_credentials : Option ℕ → StagedFill → M StagedAnswer
  release_credentials tab staged = do
    session ← get_nerve_session env
    if is_ready session.status
        then try_catch
            (do
              credentials ← lift (load_entry_credentials session staged.entry_id)
              clear_staged_fill tab
              pure (filled staged.entry_id credentials))
            (λ e. do clear_staged_fill tab; throw e)
        else pure (not_ready session.status)

  unfoldable pub resolve_on_page : Option ℕ → StagedFill → Page → M StagedAnswer
  unfolding is_foreign
  resolve_on_page tab staged page =
      if is_foreign (safe_host env page.url)
        (safe_host env (or_text staged.website staged.page_url))
      then give_up tab
      else if page.has_visible_password_field
      then release_credentials tab staged
      else pure waiting

  abbrev pub on_page : Option ℕ → StagedFill → Option Page → M StagedAnswer
  on_page tab staged none = pure nothing
  on_page tab staged (some page) =
      if truthy page.url then resolve_on_page tab staged page else pure nothing

  abbrev pub resolve_staged : Option ℕ → Option Page → Option StagedFill → M StagedAnswer
  resolve_staged tab page none = pure nothing
  resolve_staged tab page (some staged) = do
    s ← get
    if ltb staged_fill_expiry (s.now - staged.staged_at)
        then give_up tab
        else on_page tab staged page

  unfoldable pub resolve_staged_fill : Option ℕ → Option Page → M StagedAnswer
  unfolding resolve_on_page
  resolve_staged_fill tab page = do staged ← get_staged_fill tab; resolve_staged tab page staged
