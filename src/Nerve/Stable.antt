-- ===== src/Nerve/Stable.antt =====
-- Properties of the worker's state that single writes keep.
pub mod Messages
use elektrine.Base.{
  ℕ, ◌+◌, String, Bool, true, false, ◌&&◌, ltb, Option, none, some, List, [], ◌∷◌, ◌≡◌, inl, inr,
  Bool-cases, Option-cases, truthy, insert, lookup, erase, arith,
}
use elektrine.Nerve.Types.{Env, PendingSave, StagedFill}
use elektrine.Nerve.Effects.{M, State, Effect}
use elektrine.Nerve.Storage.{
  truthy_id, get_settings, clear_session_passphrase, get_pending_save, set_pending_save,
  clear_pending_save, get_staged_fill, set_staged_fill, clear_staged_fill,
}
use elektrine.Nerve.Urls.{allowed_page_url}
use elektrine.Nerve.Fill.{
  Page, FillRequest, suggestions, fill_entry, stage_at, stage_entry_fill, release_credentials,
  resolve_on_page, resolve_staged, resolve_staged_fill,
}
use elektrine.Nerve.Save.{
  Submission, SaveRequest, record_submission, resolve_pending, save_pending, cleanup_tab_state,
}
use elektrine.Nerve.Session.{
  idle_timeout, broadcast_nerve_session_changed, clear_runtime_session_passphrase,
  schedule_session_passphrase_expiry, expire_session_passphrase_if_needed,
  current_session_passphrase, get_nerve_session, store_passphrase, unlock_session, send_to,
}

-- The writes that the handlers make for the tab with this key.
pub record Survives (P : State → Type 0) (tab : Option ℕ) : Type 0 where
  pub on_effect : (s : State) (e : Effect) → P s → P (record s { effects = e ∷ s.effects })
  pub on_stored : (s : State) → P s → P (record s { stored_passphrase = none })
  pub on_clear : (s : State) → P s → P (record s { passphrase = ""; expires_at = 0; timer = none })
  pub on_open :
      (s : State) (secret : String)
      → truthy secret ≡ true
      → P s
      → P (record s {
        passphrase = secret;
        expires_at = s.now + idle_timeout;
        timer = some (s.now + idle_timeout);
      })
  pub on_set_pending :
      (s : State) (k : ℕ) (v : PendingSave)
      → truthy_id tab ≡ some k
      → P s
      → P (record s { pending = insert k v s.pending })
  pub on_clear_pending :
      (s : State) (k : ℕ)
      → truthy_id tab ≡ some k
      → P s
      → P (record s { pending = erase k s.pending })
  pub on_set_staged :
      (s : State) (k : ℕ) (v : StagedFill)
      → truthy_id tab ≡ some k
      → P s
      → P (record s { staged = insert k v s.staged })
  pub on_clear_staged :
      (s : State) (k : ℕ)
      → truthy_id tab ≡ some k
      → P s
      → P (record s { staged = erase k s.staged })

abbrev pub Keeps {ℓ} : (State → Type 0) → {A : Type ℓ} → M A → Type 0
Keeps P m = (s : State) → P s → P (m s).1

module _ (P : State → Type 0) where
  -- The handlers, from the inside out.
  module _ (env : Env) {tab : Option ℕ} (h : Survives P tab) where
    send_to-Keeps :
        (tabs : List (Option ℕ × String)) (status : String) → Keeps P (send_to env tabs status)
    unfolding send_to
    send_to-Keeps [] status s p = p
    send_to-Keeps ((none, url) ∷ tabs) status s p = send_to-Keeps tabs status s p
    send_to-Keeps ((some id, url) ∷ tabs) status s p =
        elim (Bool-cases (ltb 0 id && allowed_page_url env (some url))) [
          | inl e ↦ rw e (send_to-Keeps tabs status _ (h.on_effect s _ p))
          | inr e ↦ rw e (send_to-Keeps tabs status s p)
        ]

    broadcast-Keeps : (status : String) → Keeps P (broadcast_nerve_session_changed env status)
    unfolding broadcast_nerve_session_changed
    broadcast-Keeps status = send_to-Keeps env.page_tabs status

    pub clear_runtime-Keeps : (b : Bool) → Keeps P (clear_runtime_session_passphrase env b)
    unfolding clear_runtime_session_passphrase clear_session_passphrase
    clear_runtime-Keeps true s p = broadcast-Keeps "locked" _ (h.on_stored _ (h.on_clear s p))
    clear_runtime-Keeps false s p = h.on_stored _ (h.on_clear s p)

    -- The passphrase is written and then given its expiry.
    pub store_passphrase-Keeps : (secret : String) → Keeps P (store_passphrase env secret)
    unfolding store_passphrase schedule_session_passphrase_expiry clear_session_passphrase
        clear_runtime_session_passphrase
    store_passphrase-Keeps secret s p = elim (Bool-cases (truthy secret)) [
      | inl e ↦ rw e (broadcast-Keeps "unlocked" _ (h.on_open _ secret e (h.on_stored s p)))
      | inr e ↦ rw e (broadcast-Keeps "unlocked" _ (h.on_stored _ (h.on_clear s p)))
    ]

    pub current_passphrase-Keeps : Keeps P (current_session_passphrase env)
    unfolding current_session_passphrase expire_session_passphrase_if_needed
    current_passphrase-Keeps s p = ground (arith, clear_runtime-Keeps true s p)

    schedule-Keeps : Keeps P (schedule_session_passphrase_expiry env)
    unfolding schedule_session_passphrase_expiry
    schedule-Keeps s p = elim (Bool-cases (truthy s.passphrase)) [
      | inl e ↦ rw e (h.on_open s s.passphrase e p)
      | inr e ↦ rw e (clear_runtime-Keeps false s p)
    ]

    pub get_nerve_session-Keeps : Keeps P (get_nerve_session env)
    unfolding get_nerve_session get_settings
    get_nerve_session-Keeps s p =
        let t = (current_session_passphrase env s).1 in
        let q = current_passphrase-Keeps s p in
        ground (arith, q, schedule-Keeps t q, clear_runtime-Keeps true t q)

    pub unlock_session-Keeps : (secret : String) → Keeps P (unlock_session env secret)
    unfolding unlock_session get_settings
    unlock_session-Keeps secret s p = ground (arith, store_passphrase-Keeps secret s p)

    -- The two maps of `tab`.
    pub get_pending-Keeps : Keeps P (get_pending_save tab)
    unfolding get_pending_save
    get_pending-Keeps s p = elim (Option-cases (truthy_id tab)) [
      | inl e ↦ rw e p
      | inr (k, e) ↦ rw e (ground (arith, h.on_clear_pending s k e p))
    ]

    pub clear_pending-Keeps : Keeps P (clear_pending_save tab)
    unfolding clear_pending_save
    clear_pending-Keeps s p = elim (Option-cases (truthy_id tab)) [
      | inl e ↦ rw (e, clear_pending_save) p
      | inr (k, e) ↦ rw (e, clear_pending_save) (h.on_clear_pending s k e p)
    ]

    pub clear_staged-Keeps : Keeps P (clear_staged_fill tab)
    unfolding clear_staged_fill
    clear_staged-Keeps s p = elim (Option-cases (truthy_id tab)) [
      | inl e ↦ rw (e, clear_staged_fill) p
      | inr (k, e) ↦ rw (e, clear_staged_fill) (h.on_clear_staged s k e p)
    ]

    set_pending-Keeps : (v : PendingSave) → Keeps P (set_pending_save tab v)
    unfolding set_pending_save
    set_pending-Keeps v s p = elim (Option-cases (truthy_id tab)) [
      | inl e ↦ rw (e, set_pending_save) p
      | inr (k, e) ↦ rw (e, set_pending_save) (h.on_set_pending s k v e p)
    ]

    set_staged-Keeps : (v : StagedFill) → Keeps P (set_staged_fill tab v)
    unfolding set_staged_fill
    set_staged-Keeps v s p = elim (Option-cases (truthy_id tab)) [
      | inl e ↦ rw (e, set_staged_fill) p
      | inr (k, e) ↦ rw (e, set_staged_fill) (h.on_set_staged s k v e p)
    ]

    -- Filling.
    pub suggestions-Keeps : (page_url query : String) → Keeps P (suggestions env page_url query)
    unfolding suggestions
    suggestions-Keeps page_url query s p = ground (arith, get_nerve_session-Keeps s p)

    pub fill_entry-Keeps : (id : ℕ) (page_url : String) → Keeps P (fill_entry env id page_url)
    unfolding fill_entry
    fill_entry-Keeps id page_url s p = ground (arith, get_nerve_session-Keeps s p)

    stage_at-Keeps : (id : Option ℕ) (r : FillRequest) → Keeps P (stage_at env tab id r)
    stage_at-Keeps none r s p = p
    stage_at-Keeps (some id) r s p =
        let v : StagedFill = record {
          entry_id = id;
          page_url = r.page_url;
          website = r.website;
          staged_at = s.now;
        } in
        ground (arith, set_staged-Keeps v s p)

    pub stage-Keeps : (r : FillRequest) → Keeps P (stage_entry_fill env tab r)
    unfolding stage_entry_fill
    stage-Keeps r s p = ground (arith, stage_at-Keeps (truthy_id r.entry_id) r s p)

    release-Keeps : (v : StagedFill) → Keeps P (release_credentials env tab v)
    unfolding release_credentials
    release-Keeps v s p =
        let q = get_nerve_session-Keeps s p in
        let t = (get_nerve_session env s).1 in
        let c = clear_staged-Keeps t q in
        ground (arith, q, c, clear_staged-Keeps (clear_staged_fill tab t).1 c)

    pub resolve_staged-Keeps : (page : Option Page) → Keeps P (resolve_staged_fill env tab page)
    unfolding resolve_staged_fill resolve_on_page get_staged_fill
    resolve_staged-Keeps page s p = elim (Option-cases (truthy_id tab)) [
      | inl e ↦ rw (e, get_staged_fill) p
      | inr (k, e) ↦ rw (e, get_staged_fill) (with_staged (lookup k s.staged))
    ]
      where
        with_staged : (o : Option StagedFill) → P (resolve_staged env tab page o s).1
        with_staged none = p
        with_staged (some v) = ground (arith, clear_staged-Keeps s p, release-Keeps v s p)

    -- Saving.
    pub record_submission-Keeps : (r : Option Submission) → Keeps P (record_submission env tab r)
    unfolding record_submission
    record_submission-Keeps none s p = ground arith
    record_submission-Keeps (some r) s p =
        let v : PendingSave = record {
          submit_url = r.submit_url;
          website = r.website;
          username = r.username;
          password = r.password;
          page_title = r.page_title;
          recorded_at = s.now;
        } in
        ground (arith, set_pending-Keeps v s p)

    pub resolve_pending-Keeps :
        (page : Option Page) (o : Option PendingSave) → Keeps P (resolve_pending env tab page o)
    resolve_pending-Keeps page none s p = p
    resolve_pending-Keeps page (some v) s p =
        ground (arith, clear_pending-Keeps s p, get_nerve_session-Keeps s p)

    pub save_pending-Keeps :
        (r : SaveRequest) (o : Option PendingSave) → Keeps P (save_pending env tab r o)
    save_pending-Keeps r none s p = p
    save_pending-Keeps r (some v) s p =
        let q = get_nerve_session-Keeps s p in
        let t = (get_nerve_session env s).1 in ground (arith, q, clear_pending-Keeps t q)

    pub cleanup-Keeps : Keeps P (cleanup_tab_state tab)
    unfolding cleanup_tab_state
    cleanup-Keeps s p =
        let q = clear_pending-Keeps s p in
        ground (arith, q, clear_staged-Keeps (clear_pending_save tab s).1 q)
