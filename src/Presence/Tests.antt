-- ===== src/Presence/Tests.antt =====
-- The tracker on concrete events.
use elektrine.Base.{◌≡◌, refl, true, false, suc, [], ◌∷◌, arith}
use elektrine.Presence.Tracker.{
  auto_away_timeout, user_activity, activity, visibility, wait, timeout, connection, auto_away_set,
  auto_away_cleared, step, run, mounted, handle_activity,
}
use elektrine.Presence.Idle.{reports, activity-reports}

-- The timer starts again with an activity; an away user who comes back while the page is not
-- connected is not reported.
run_tests :
    ((run (wait 200000 ∷ activity ∷ wait 200000 ∷ timeout ∷ []) (mounted 7)).pushed ≡ [])
    × ((run (wait 300000 ∷ timeout ∷ visibility true ∷ timeout ∷ []) (mounted 7)).pushed
        ≡ auto_away_timeout ∷ user_activity ∷ [])
    × ((run
          (wait 300000 ∷ timeout ∷ connection false ∷ activity ∷ connection true ∷ activity ∷ [])
          (mounted 7)).pushed
        ≡ auto_away_timeout ∷ [])
unfolding run step mounted handle_activity
run_tests = (refl, refl, refl)

activity-reports_example :
    (reports
        (run
          (activity ∷ auto_away_set true ∷ wait 299999 ∷ timeout ∷ auto_away_cleared ∷ [])
          (mounted 7)).pushed
      ≡ reports (mounted 7).pushed)
    × (reports (run (activity ∷ wait 300000 ∷ timeout ∷ []) (mounted 7)).pushed
        ≡ suc (reports (mounted 7).pushed))
unfolding mounted
activity-reports_example =
    activity-reports (auto_away_set true ∷ wait 299999 ∷ timeout ∷ auto_away_cleared ∷ []) 300000
      (mounted 7) refl (omega arith) refl (omega arith)
