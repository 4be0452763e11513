-- ===== src/Nerve/Fill/Release.antt =====
-- When credentials leave the worker.
use elektrine.Base.{
  ℕ, ◌-◌, ◌≤◌, String, true, false, ◌≡◌, refl, none, some, List, truthy, text_of, or_text, eq_iff,
  arith, find, ◌==◌, inl, inr, Option-cases,
}
use elektrine.Nerve.Types.{Env, Entry, Result, ok, err, StagedFill}
use elektrine.Nerve.Effects.{State}
use elektrine.Nerve.Urls.{safe_host, hosts_related}
use elektrine.Nerve.Session.{Session, ready, get_nerve_session}
use elektrine.Nerve.Ranking.{entry_allowed_for_page}
use elektrine.Nerve.Fill.{
  Credentials, Page, staged_fill_expiry, load_entry_credentials, fill_entry, is_foreign,
}
use elektrine.Nerve.Stable.{Survives}

-- Credentials are filled only from an unlocked session, for one of its entries, and only into a
-- page whose host is known and is the host of the entry's website.
pub fill_entry-same_host :
    (env : Env) (s : State) (id : ℕ) (page_url : String) (c : Credentials)
    → (fill_entry env id page_url s).0 ≡ ok c
    → (r : Session) × ((get_nerve_session env s).0 ≡ ok r)
      × (r.status ≡ ready)
      × ((entry : Entry) × (find (λ e. e.id == id) r.entries ≡ some entry)
          × (truthy (safe_host env page_url) ≡ true)
          × (safe_host env page_url ≡ safe_host env (text_of entry.website)))
      × (load_entry_credentials env r id ≡ ok c)
unfolding fill_entry entry_allowed_for_page hosts_related
fill_entry-same_host env s id page_url c h = from (get_nerve_session env s).0 refl
  where
    from :
        (o : Result Session)
        → (get_nerve_session env s).0 ≡ o
        → (r : Session) × ((get_nerve_session env s).0 ≡ ok r)
          × (r.status ≡ ready)
          × ((entry : Entry) × (find (λ e. e.id == id) r.entries ≡ some entry)
              × (truthy (safe_host env page_url) ≡ true)
              × (safe_host env page_url ≡ safe_host env (text_of entry.website)))
          × (load_entry_credentials env r id ≡ ok c)
    from (err e) q = absurd (ground arith)
    from (ok r) q = elim (Option-cases (find (λ e. e.id == id) r.entries)) [
      | inl e ↦ absurd (ground arith)
      | inr (entry, e) ↦
          let same = eq_iff (safe_host env page_url) (safe_host env (text_of entry.website)) in
          (r, q, ground arith, (entry, e, ground arith, ground (arith, same)), ground arith)
    ]

-- What a successful release needs of the staged fill and the page.
pub record Released (env : Env) (s : State) (v : StagedFill) (page : Page) (id : ℕ) : Type 0 where
  pub same_entry : id ≡ v.entry_id
  pub recent : s.now - v.staged_at ≤ staged_fill_expiry
  pub has_password_field : page.has_visible_password_field ≡ true
  pub related :
      is_foreign (safe_host env page.url) (safe_host env (or_text v.website v.page_url)) ≡ false

Staged-Survives : (k : ℕ) (m : List (ℕ × StagedFill)) → Survives (λ s. s.staged ≡ m) none
Staged-Survives k m = record {
  on_effect = λ s e p. p;
  on_stored = λ s p. p;
  on_clear = λ s p. p;
  on_open = λ s secret e p. p;
  on_set_pending = λ s j v e p. p;
  on_clear_pending = λ s j e p. p;
  on_set_staged = λ s j v e p. cc;
  on_clear_staged = λ s j e p. cc;
}
