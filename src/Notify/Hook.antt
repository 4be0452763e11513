-- ===== src/Notify/Hook.antt =====
-- notification_visibility.js, callback by callback.
use Prim.Native.Char.{code}
use Prim.Native.String
use elektrine.Base.{
  ℕ, String, Bool, true, false, not, ◌&&◌, ◌||◌, Option, none, some, List, [], ◌∷◌, ◌++◌, map,
  if◌then◌else◌, ◌==◌, ◌===◌, leb, length, is_some, keep_if, find, truthy, text_of, trim,
}

-- An element that shows a notification, and its `dataset`.
pub record Card : Type 0 where
  pub element : ℕ
  pub unread : Option String
  pub notification_ids : Option String
  pub notification_id : Option String

pub record Hook : Type 0 where
  -- `this.el.dataset.autoMarkRead`, and the cards below `this.el`
  pub auto_mark_read : Option String
  pub cards : List Card
  -- the elements that `this.observer` observes
  pub observer : Option (List ℕ)
  pub marked_as_read : List String
  pub pending_mark_as_read : List String
  -- whether `this.markTimeout` is running
  pub mark_timeout : Bool
  -- the `notification_ids` of each `mark_visible_as_read` that was pushed
  pub pushed : List (List String)

pub record Intersection : Type 0 where
  pub target : ℕ
  pub is_intersecting : Bool

pub data Event : Type 0 where
  intersect : List Intersection → Event
  timeout : Event
  updated : (auto_mark_read : Option String) → List Card → Event
  destroyed : Event

-- `Set.has` and `Set.add`.
abbrev pub has : String → List String → Bool
has x [] = false
has x (y ∷ ys) = y === x || has x ys

unfoldable pub add_id : String → List String → List String
add_id x ys = if has x ys then ys else x ∷ ys

abbrev put_first : String → List String → List String
put_first c [] = c ∷ []
put_first c (s ∷ ss) = String.◌++◌ c s ∷ ss

-- `split(',')`
unfoldable pub split_comma : String → List String
split_comma String.[] = "" ∷ []
split_comma (String.◌∷◌ c s) =
    if code c == 44 then "" ∷ split_comma s else put_first (String.◌∷◌ c "") (split_comma s)

unfoldable pub notification_ids_for_element : Card → List String
unfolding split_comma
notification_ids_for_element c =
    let grouped = text_of c.notification_ids in
    let single = text_of c.notification_id in
    if truthy grouped
    then keep_if truthy (map trim (split_comma grouped))
    else if truthy single
    then single ∷ []
    else []

abbrev pub is_unread : Card → Bool
is_unread c = text_of c.unread === "true"

abbrev auto_mark_read_enabled : Hook → Bool
auto_mark_read_enabled h = not (text_of h.auto_mark_read === "false")

-- `idsToQueue.forEach`
unfoldable pub queue : List String → Hook → Hook
unfolding add_id
queue [] h = h
queue (x ∷ xs) h = queue xs (record h {
  marked_as_read = add_id x h.marked_as_read;
  pending_mark_as_read = h.pending_mark_as_read ++ x ∷ [];
})

abbrev pub read_card : ℕ → Card → Card
read_card e c = if c.element == e then record c { unread = some "false" } else c

abbrev pub fresh : Card → Hook → List String
fresh c h = keep_if (λ x. not (has x h.marked_as_read)) (notification_ids_for_element c)

abbrev pub queue_fresh : Card → List String → Hook → Hook
queue_fresh c [] h = h
queue_fresh c (x ∷ xs) h =
    let q = queue (x ∷ xs) h in record q { cards = map (read_card c.element) q.cards }

-- One entry that intersects.
unfoldable pub seen : Option Card → Hook → Hook
unfolding queue
seen none h = h
seen (some c) h = if is_unread c then queue_fresh c (fresh c h) h else h

abbrev pub is_observed : ℕ → Hook → Bool
is_observed e h = is_some (find (λ o. o == e) (elim h.observer [ none ↦ [] | some os ↦ os ]))

-- The platform reports an element only to the observer that observes it.
abbrev pub entry_seen : Intersection → Hook → Hook
entry_seen e h =
    if is_observed e.target h && e.is_intersecting
    then seen (find (λ c. c.element == e.target) h.cards) h
    else h

unfoldable pub entries_seen : List Intersection → Hook → Hook
unfolding seen
entries_seen [] h = h
entries_seen (e ∷ es) h = entries_seen es (entry_seen e h)

-- The observer's callback.
unfoldable pub on_intersect : List Intersection → Hook → Hook
unfolding entries_seen
on_intersect es h =
    let q = entries_seen es h in
    if leb 1 (length q.pending_mark_as_read) then record q { mark_timeout = true } else q

abbrev observes : Card → Bool
observes c = (is_some c.notification_id || is_some c.notification_ids) && is_unread c

unfoldable pub observe_notifications : List ℕ → Hook → Hook
observe_notifications os h = record h {
  observer = some (os ++ map (λ c. c.element) (keep_if observes h.cards));
}

unfoldable pub setup_intersection_observer : Hook → Hook
unfolding observe_notifications
setup_intersection_observer h = if auto_mark_read_enabled h then observe_notifications [] h else h

unfoldable pub mounted : Option String → List Card → Hook
unfolding setup_intersection_observer
mounted auto cards = setup_intersection_observer (record {
  auto_mark_read = auto;
  cards = cards;
  observer = none;
  marked_as_read = [];
  pending_mark_as_read = [];
  mark_timeout = false;
  pushed = [];
})

unfoldable pub on_updated : Hook → Hook
unfolding setup_intersection_observer
on_updated h =
    if auto_mark_read_enabled h
    then elim h.observer [
      | none ↦ setup_intersection_observer h
      | some os ↦ observe_notifications os h
    ]
    else record h { observer = none }

unfoldable pub on_timeout : Hook → Hook
on_timeout h =
    if h.mark_timeout
    then record h {
      mark_timeout = false;
      pending_mark_as_read = [];
      pushed = h.pushed ++ h.pending_mark_as_read ∷ [];
    }
    else h

unfoldable pub step : Event → Hook → Hook
unfolding on_intersect on_timeout on_updated
step (intersect es) h = on_intersect es h
step timeout h = on_timeout h
step (updated auto cards) h = on_updated (record h { auto_mark_read = auto; cards = cards })
step destroyed h = record h { observer = none; mark_timeout = false }

unfoldable pub run : List Event → Hook → Hook
unfolding step
run [] h = h
run (e ∷ es) h = run es (step e h)
