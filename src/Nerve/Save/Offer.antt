-- ===== src/Nerve/Save/Offer.antt =====
-- From a recorded submission to the offer to save it (recordSubmission, resolvePendingSave).
use elektrine.Base.{
  ℕ, suc, ◌+◌, ◌≤◌, ◌<◌, ◌≡◌, true, false, some, none, truthy, lookup, insert, lookup-insert,
  lookup-erase, arith,
}
use elektrine.Nerve.Types.{Env, PendingSave, ok}
use elektrine.Nerve.Effects.{State}
use elektrine.Nerve.Storage.{get_pending_save, set_pending_save}
use elektrine.Nerve.Session.{Session, get_nerve_session}
use elektrine.Nerve.Ranking.{find_existing_entry}
use elektrine.Nerve.Fill.{Page}
use elektrine.Nerve.Save.{
  Submission, nothing, prompt, prompt_for, pending_save_expiry, record_submission,
  resolve_pending_save, should_prompt_for_pending_save,
}

-- What `recordSubmission` stores.
abbrev pub pending_of : Submission → ℕ → PendingSave
pending_of p now = record {
  submit_url = p.submit_url;
  website = p.website;
  username = p.username;
  password = p.password;
  page_title = p.page_title;
  recorded_at = now;
}

-- The worker after the submission is recorded for the tab `suc k` and `n` milliseconds pass.
abbrev pub later : Env → ℕ → Submission → ℕ → State → State
later env k p n s =
    let t = (record_submission env (some (suc k)) (some p) s).1 in record t { now = s.now + n }

module _ (env : Env) (s : State) (k n : ℕ) (p : Submission) (page : Page)
    (has_password : truthy p.password ≡ true) (wanted : p.skip_save ≡ false)
    (started : 0 < s.now) where
  -- Within five minutes the tab's next page gets the prompt for what was submitted, whatever the
  -- status of the vault session, if the page is one to prompt on.
  record-resolve :
      (r : Session)
      → n ≤ pending_save_expiry
      → should_prompt_for_pending_save env (pending_of p s.now) (some page) ≡ true
      → (get_nerve_session env (later env k p n s)).0 ≡ ok r
      → (resolve_pending_save env (some (suc k)) (some page) (later env k p n s)).0
        ≡ ok (
            prompt r.status (
              prompt_for env
                (pending_of p s.now)
                (find_existing_entry env r.entries (pending_of p s.now))))
  unfolding resolve_pending_save get_pending_save record_submission set_pending_save
  record-resolve r short wants opened =
      ground (arith, lookup-insert (suc k) (suc k) (pending_of p s.now) s.pending)

  -- After five minutes the submission is neither offered nor kept.
  record-resolve_expired :
      pending_save_expiry < n
      → ((resolve_pending_save env (some (suc k)) (some page) (later env k p n s)).0 ≡ ok nothing)
        × (lookup
              (suc k)
              (resolve_pending_save env (some (suc k)) (some page) (later env k p n s)).1.pending
            ≡ none)
  unfolding resolve_pending_save get_pending_save record_submission set_pending_save
  record-resolve_expired long = (
    ground (arith, lookup-insert (suc k) (suc k) (pending_of p s.now) s.pending),
    ground (
      arith,
      lookup-insert (suc k) (suc k) (pending_of p s.now) s.pending,
      lookup-erase (suc k) (suc k) (insert (suc k) (pending_of p s.now) s.pending),
    ),
  )
