-- ===== src/Nerve/Worker/Tabs.antt =====
-- What the worker keeps for each tab.
use elektrine.Base.{ℕ, suc, ◌≡◌, ◌≢◌, Option, none, lookup, lookup-erase, arith}
use elektrine.Nerve.Types.{Env, PendingSave, StagedFill}
use elektrine.Nerve.Effects.{State}
use elektrine.Nerve.Storage.{clear_pending_save, clear_staged_fill}
use elektrine.Nerve.Save.{cleanup_tab_state}
use elektrine.Nerve.Worker.{tab_removed, step}

-- The tab `j` has these two values.
pub record Holds (j : ℕ) (v : Option PendingSave) (w : Option StagedFill) (s : State) : Type 0 where
  pub saves : lookup j s.pending ≡ v
  pub fills : lookup j s.staged ≡ w

-- A closed tab leaves nothing behind, and the other tabs keep what they had.
tab_removed_lem :
    (env : Env) (s : State) (k j : ℕ)
    → (lookup (suc k) (step env s (tab_removed (suc k))).pending ≡ none)
      × (lookup (suc k) (step env s (tab_removed (suc k))).staged ≡ none)
      × (suc k ≢ j → lookup j (step env s (tab_removed (suc k))).pending ≡ lookup j s.pending)
      × (suc k ≢ j → lookup j (step env s (tab_removed (suc k))).staged ≡ lookup j s.staged)
unfolding step cleanup_tab_state clear_pending_save clear_staged_fill
tab_removed_lem env s k j = (
  ground (arith, lookup-erase (suc k) (suc k) s.pending),
  ground (arith, lookup-erase (suc k) (suc k) s.staged),
  λ e. ground (arith, lookup-erase (suc k) j s.pending),
  λ e. ground (arith, lookup-erase (suc k) j s.staged),
)
