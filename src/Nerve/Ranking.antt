-- ===== src/Nerve/Ranking.antt =====
-- background.js: which entries are suggested for a page, which one a submitted login updates, and
-- which one may be filled on a page.
pub mod Laws
use elektrine.Base.{
  ℕ, ◌+◌, String, Bool, true, false, ◌&&◌, Option, none, some, List, [], ◌∷◌, map, if◌then◌else◌,
  truthy, or_text, text_of, concat, ◌===◌, includes, keep_if, ℤ, pos, negsuc, sub_ℕ, ltz, eqz, sort,
  trim,
}
use elektrine.Nerve.Types.{Entry, Env, PendingSave}
use elektrine.Nerve.Urls.{safe_host, hosts_related, default_title}

pub record Ranked : Type 0 where
  pub entry : Entry
  pub score : ℤ

-- `[…].filter(Boolean).join(" ")`
abbrev join_words : List String → String
join_words [] = ""
join_words (w ∷ []) = w
join_words (w ∷ v ∷ ws) = concat w (concat " " (join_words (v ∷ ws)))

-- `score >= 0`
abbrev pub not_negative : ℤ → Bool
not_negative (pos n) = true
not_negative (negsuc n) = false

abbrev first_entry : List Ranked → Option Entry
first_entry [] = none
first_entry (r ∷ rs) = some r.entry

module _ (env : Env) where
  unfoldable pub haystack : Entry → String
  haystack entry = env.lower (
      join_words (
        keep_if truthy
          (text_of entry.title ∷ text_of entry.login_username ∷ text_of entry.website ∷ [])))

  abbrev host_score : String → String → ℕ
  host_score host entry_host =
      if truthy host && truthy entry_host
      then if host === entry_host then 40 else if hosts_related host entry_host then 24 else 0
      else 0

  unfoldable pub entry_score : String → String → Entry → ℤ
  unfolding haystack
  entry_score host query_text entry =
      let base = host_score host (safe_host env (text_of entry.website)) in
      if truthy query_text
      then if includes (haystack entry) query_text then pos (base + 20) else sub_ℕ base 100
      else pos base

  -- The comparison of `rankEntries`: the title decides between equal scores.
  unfoldable pub ranks_before : Ranked → Ranked → Bool
  ranks_before left right =
      if eqz left.score right.score
      then env.locale_lt (text_of left.entry.title) (text_of right.entry.title)
      else ltz right.score left.score

  abbrev pub query_text : String → String
  query_text query = env.lower (trim query)

  abbrev pub scored : List Entry → String → String → List Ranked
  scored entries page_url query =
      map
        (λ e. record {
          entry = e;
          score = entry_score (safe_host env page_url) (query_text query) e;
        })
        entries

  unfoldable pub rank_entries : List Entry → String → String → List Ranked
  unfolding entry_score ranks_before
  rank_entries entries page_url query =
      sort ranks_before (keep_if (λ r. not_negative r.score) (scored entries page_url query))

  abbrev match_score : PendingSave → Entry → ℕ
  match_score pending entry =
      let pending_host = safe_host env (or_text pending.website pending.submit_url) in
      let entry_host = safe_host env (text_of entry.website) in
      let username = env.lower (trim pending.username) in
      (if truthy pending_host && truthy entry_host && hosts_related pending_host entry_host
        then 50
        else 0)
      + (if truthy username && env.lower (trim (text_of entry.login_username)) === username
          then 40
          else 0)
      + (if env.lower (trim (text_of entry.title)) === env.lower (default_title env pending)
          then 10
          else 0)

  unfoldable pub existing_score : PendingSave → Entry → ℕ
  existing_score pending entry = match_score pending entry

  unfoldable pub scores_before : Ranked → Ranked → Bool
  scores_before left right = ltz right.score left.score

  unfoldable pub find_existing_entry : List Entry → PendingSave → Option Entry
  unfolding existing_score scores_before
  find_existing_entry entries pending = first_entry (
      sort scores_before (
        keep_if (λ r. ltz (pos 0) r.score)
          (map (λ e. record { entry = e; score = pos (existing_score pending e) }) entries)))

  unfoldable pub entry_allowed_for_page : Entry → String → Bool
  entry_allowed_for_page entry page_url =
      let page_host = safe_host env page_url in
      let entry_host = safe_host env (text_of entry.website) in
      truthy page_host && truthy entry_host && hosts_related page_host entry_host
