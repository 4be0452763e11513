-- ===== src/Notify/Tests.antt =====
-- The notifications of a small page.
use elektrine.Base.{trim, ◌≡◌, ◌≤◌, refl, none, some, List, [], ◌∷◌}
use elektrine.Notify.Hook.{
  Card, Event, intersect, timeout, mounted, step, run, notification_ids_for_element,
  setup_intersection_observer, observe_notifications,
}
use elektrine.Notify.Marks.{count_pushed}
use elektrine.Notify.Tracked.{DistinctCards}
use elektrine.Notify.Reported.{run-pushed_once, intersect-timeout, mounted-IsClean, seen_at}

abbrev group : Card
group = record {
  element = 1;
  unread = some "true";
  notification_ids = some "7, 8,";
  notification_id = none;
}

abbrev single : Card
single = record {
  element = 2;
  unread = some "true";
  notification_ids = none;
  notification_id = some "8";
}

abbrev page : List Card
page = group ∷ single ∷ []

abbrev seeing : List Event
seeing = intersect (seen_at 1 ∷ []) ∷ timeout ∷ intersect (seen_at 1 ∷ seen_at 2 ∷ []) ∷ []

page_test :
    ((run seeing (mounted none page)).pushed ≡ ("7" ∷ "8" ∷ []) ∷ [])
    × ((run seeing (mounted (some "false") page)).pushed ≡ [])
unfolding run step mounted notification_ids_for_element trim
page_test = (refl, refl)

page-Distinct : DistinctCards page
unfolding notification_ids_for_element trim
page-Distinct = ((refl, (refl, tt)), ((refl, tt), tt))

run-pushed_once_example : count_pushed "8" (run seeing (mounted none page)).pushed ≤ 1
run-pushed_once_example = run-pushed_once none page seeing "8" page-Distinct tt

intersect-timeout_example :
    count_pushed "8" (run (intersect (seen_at 1 ∷ []) ∷ timeout ∷ []) (mounted none page)).pushed
    ≡ 1
unfolding mounted setup_intersection_observer observe_notifications notification_ids_for_element
    trim
intersect-timeout_example =
    intersect-timeout (mounted none page) group 1 "8" (mounted-IsClean none page page-Distinct) refl
      refl refl refl
