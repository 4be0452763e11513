-- ===== src/Notify/Reported.antt =====
-- What the server hears of the notifications that are seen.
use elektrine.Base.{
  ℕ, ◌+◌, ◌≡◌, ◌≤◌, refl, ◌∙◌, String, true, false, not, ◌||◌, Option, none, some, List, [], ◌∷◌,
  if◌then◌else◌, leb, length, find, ◌==◌, arith, inl, inr, Bool-cases,
}
use elektrine.Notify.Hook.{
  Card, Hook, Intersection, Event, intersect, timeout, has, notification_ids_for_element, is_unread,
  fresh, queue_fresh, seen, is_observed, entries_seen, on_intersect, on_timeout, mounted, step, run,
}
use elektrine.Notify.Marks.{count, count_pushed, queue-has, keep_if-keeps, count_pushed-append}
use elektrine.Notify.Tracked.{
  DistinctCards, DistinctEvents, IsClean, run-IsClean, entries_seen-IsClean, setup-IsClean,
}

abbrev new_hook : Option String → List Card → Hook
new_hook auto cards = record {
  auto_mark_read = auto;
  cards = cards;
  observer = none;
  marked_as_read = [];
  pending_mark_as_read = [];
  mark_timeout = false;
  pushed = [];
}

pub mounted-IsClean :
    (auto : Option String) (cards : List Card) → DistinctCards cards → IsClean (mounted auto cards)
unfolding mounted
mounted-IsClean auto cards d =
    setup-IsClean (new_hook auto cards)
      (record { tracked = record { once = λ x. refl }; distinct = d })

-- No notification is reported twice: over any events on a page whose cards name no notification
-- twice, each id stands at most once in all the messages to the server together.
pub run-pushed_once :
    (auto : Option String) (cards : List Card) (es : List Event) (x : String)
    → DistinctCards cards
    → DistinctEvents es
    → count_pushed x (run es (mounted auto cards)).pushed ≤ 1
run-pushed_once auto cards es x d e =
    let h = run-IsClean es _ e (mounted-IsClean auto cards d) in ground (arith, h.tracked.once x)

queue_fresh-has :
    (c : Card) (xs : List String) (h : Hook) (x : String)
    → has x (queue_fresh c xs h).marked_as_read ≡ (has x xs || has x h.marked_as_read)
queue_fresh-has c [] h x = refl
queue_fresh-has c (y ∷ ys) h x = queue-has x (y ∷ ys) h

seen-has :
    (c : Card) (h : Hook) (x : String)
    → is_unread c ≡ true
    → has x (notification_ids_for_element c) ≡ true
    → has x (seen (some c) h).marked_as_read ≡ true
unfolding seen
seen-has c h x u m =
    rw (u, queue_fresh-has c (fresh c h) h x)
      (elim (Bool-cases (has x h.marked_as_read)) [
        | inl e ↦ rw e (ground arith)
        | inr e ↦
            rw
              (keep_if-keeps (λ y. not (has y h.marked_as_read)) x (notification_ids_for_element c)
                (rw e refl) m)
              refl
      ])

count_of_short : (x : String) (xs : List String) → leb 1 (length xs) ≡ false → count x xs ≡ 0
count_of_short x [] e = refl
count_of_short x (y ∷ xs) e = ground arith

abbrev started : Hook → Hook
started q = if leb 1 (length q.pending_mark_as_read) then record q { mark_timeout = true } else q

-- After the timer has fired, what was pushed or waited has been pushed.
flushed :
    (q : Hook) (x : String)
    → count_pushed x (on_timeout (started q)).pushed
      ≡ count_pushed x q.pushed + count x q.pending_mark_as_read
unfolding on_timeout
flushed q x =
    let more = count_pushed-append x q.pushed (q.pending_mark_as_read ∷ []) in
    elim (Bool-cases (leb 1 (length q.pending_mark_as_read))) [
      | inl e ↦ rw e (ground (arith, more))
      | inr e ↦ elim (Bool-cases q.mark_timeout) [
        | inl f ↦ rw (e, f) (ground (arith, more))
        | inr f ↦ rw (e, f) (ground (arith, count_of_short x q.pending_mark_as_read e))
      ]
    ]

abbrev pub seen_at : ℕ → Intersection
seen_at e = record { target = e; is_intersecting = true }

entries_seen-has :
    (h : Hook) (c : Card) (e : ℕ) (x : String)
    → find (λ d. d.element == e) h.cards ≡ some c
    → is_observed e h ≡ true
    → is_unread c ≡ true
    → has x (notification_ids_for_element c) ≡ true
    → has x (entries_seen (seen_at e ∷ []) h).marked_as_read ≡ true
unfolding entries_seen
entries_seen-has h c e x f o u m = rw (o, f) (seen-has c h x u m)

-- A notification that is seen is reported: if no card names a notification twice and the ids are
-- counted once, then, after the observer reports a card that it observes and that is unread, and
-- the timer fires, every id of the card stands exactly once in all the messages to the server.
pub intersect-timeout :
    (h : Hook) (c : Card) (e : ℕ) (x : String)
    → IsClean h
    → find (λ d. d.element == e) h.cards ≡ some c
    → is_observed e h ≡ true
    → is_unread c ≡ true
    → has x (notification_ids_for_element c) ≡ true
    → count_pushed x (run (intersect (seen_at e ∷ []) ∷ timeout ∷ []) h).pushed ≡ 1
unfolding run step on_intersect
intersect-timeout h c e x t f o u m =
    flushed (entries_seen (seen_at e ∷ []) h) x
    ∙ (entries_seen-IsClean (seen_at e ∷ []) h t).tracked.once x
    ∙ rw (entries_seen-has h c e x f o u m) refl
