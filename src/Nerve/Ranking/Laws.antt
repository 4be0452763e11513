-- ===== src/Nerve/Ranking/Laws.antt =====
-- The order and the choice of the ranked entries (rankEntries).
use elektrine.Base.{
  ◌≤◌, String, true, false, ◌≡◌, List, [], ◌∷◌, All, keep_if, truthy, includes, sort-All, IsSorted,
  sort-IsSorted, sort-perm, arith, Bool-cases, inl, inr, text_of,
}
use mathlib.Core.List.{Perm}
use elektrine.Nerve.Urls.{safe_host}
use elektrine.Nerve.Types.{Env, Entry}
use elektrine.Nerve.Ranking.{
  Ranked, haystack, host_score, entry_score, ranks_before, query_text, not_negative, scored,
  rank_entries,
}

host_score-le : (env : Env) (host other : String) → host_score env host other ≤ 40
host_score-le env host other = ground arith

-- An entry that does not contain the query falls below zero.
entry_score-kept :
    (env : Env) (host text : String) (e : Entry)
    → not_negative (entry_score env host text e) ≡ true
    → truthy text ≡ true
    → includes (haystack env e) text ≡ true
unfolding entry_score
entry_score-kept env host text e h t =
    ground (arith, host_score-le env host (safe_host env (text_of e.website)))

-- The ranked entry contains the query, if there is one.
abbrev pub Fits : Env → String → Ranked → Type 0
Fits env text r = truthy text ≡ true → includes (haystack env r.entry) text ≡ true

kept_scored-Fits :
    (env : Env) (entries : List Entry) (page_url query : String)
    → All
        (Fits env (query_text env query))
        (keep_if (λ r. not_negative r.score) (scored env entries page_url query))
kept_scored-Fits env [] page_url query = tt
kept_scored-Fits env (e ∷ es) page_url query =
    let host = safe_host env page_url in
    let text = query_text env query in
    elim (Bool-cases (not_negative (entry_score env host text e))) [
      | inl q ↦ rw q (entry_score-kept env host text e q, kept_scored-Fits env es page_url query)
      | inr q ↦ rw q (kept_scored-Fits env es page_url query)
    ]

ranks_before-asymmetric :
    (env : Env)
    → ((x y : String) → env.locale_lt x y ≡ true → env.locale_lt y x ≡ false)
    → (a b : Ranked) → ranks_before env a b ≡ true
    → ranks_before env b a ≡ false
unfolding ranks_before
ranks_before-asymmetric env asym a b h =
    ground (arith, asym (text_of a.entry.title) (text_of b.entry.title))

-- With a consistent order of titles, the ranking has no entry directly behind one that it should
-- precede, holds entries that contain the query only, and is a rearrangement of the entries whose
-- score is not negative.
pub rank_entries_lem :
    (env : Env) (entries : List Entry) (page_url query : String)
    → ((x y : String) → env.locale_lt x y ≡ true → env.locale_lt y x ≡ false)
    → IsSorted (ranks_before env) (rank_entries env entries page_url query)
      × All (Fits env (query_text env query)) (rank_entries env entries page_url query)
      × Perm
          (rank_entries env entries page_url query)
          (keep_if (λ r. not_negative r.score) (scored env entries page_url query))
unfolding rank_entries
rank_entries_lem env entries page_url query asym = (
  sort-IsSorted (ranks_before env) (ranks_before-asymmetric env asym) _,
  sort-All (ranks_before env) _ _ (kept_scored-Fits env entries page_url query),
  sort-perm (ranks_before env) _,
)
