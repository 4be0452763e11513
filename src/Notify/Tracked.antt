-- ===== src/Notify/Tracked.antt =====
-- The notifications that are observed, wait and were pushed.
use elektrine.Base.{
  ℕ, ◌≡◌, refl, String, false, not, ◌&&◌, Option, none, some, List, [], ◌∷◌, map, leb, length, find,
  ◌==◌, All, arith, inl, inr, Bool-cases, Option-cases, text_of, ◌===◌,
}
use elektrine.Notify.Hook.{
  Card, Hook, Intersection, Event, intersect, timeout, updated, destroyed, has,
  notification_ids_for_element, is_unread, read_card, queue, fresh, queue_fresh, seen, is_observed,
  entry_seen, entries_seen, on_intersect, on_timeout, on_updated, step, run,
  setup_intersection_observer, observe_notifications,
}
use elektrine.Notify.Marks.{
  Distinct, IsTracked, queue-IsTracked, keep_if-Distinct, keep_if-All, count_pushed-append,
}

-- No card names one notification twice.
abbrev pub DistinctCards : List Card → Type 0
DistinctCards [] = Unit
DistinctCards (c ∷ cs) = Distinct (notification_ids_for_element c) × DistinctCards cs

abbrev pub DistinctEvents : List Event → Type 0
DistinctEvents [] = Unit
DistinctEvents (updated auto cards ∷ es) = DistinctCards cards × DistinctEvents es
DistinctEvents (_ ∷ es) = DistinctEvents es

abbrev DistinctCard : Option Card → Type 0
DistinctCard none = Unit
DistinctCard (some c) = Distinct (notification_ids_for_element c)

find-DistinctCard :
    (e : ℕ) (cs : List Card) → DistinctCards cs → DistinctCard (find (λ d. d.element == e) cs)
find-DistinctCard e [] d = tt
find-DistinctCard e (x ∷ cs) (p, d) = elim (Bool-cases (x.element == e)) [
  | inl f ↦ rw f p
  | inr f ↦ rw f (find-DistinctCard e cs d)
]

read_card-DistinctCards :
    (e : ℕ) (cs : List Card) → DistinctCards cs → DistinctCards (map (read_card e) cs)
unfolding notification_ids_for_element
read_card-DistinctCards e [] d = tt
read_card-DistinctCards e (c ∷ cs) (p, d) = elim (Bool-cases (c.element == e)) [
  | inl f ↦ rw f (p, read_card-DistinctCards e cs d)
  | inr f ↦ rw f (p, read_card-DistinctCards e cs d)
]

queue-cards : (xs : List String) (h : Hook) → (queue xs h).cards ≡ h.cards
unfolding queue
queue-cards [] h = refl
queue-cards (x ∷ xs) h = queue-cards xs _

-- The ids are counted once, and no card names one twice.
pub record IsClean (h : Hook) : Type 0 where
  pub tracked : IsTracked h
  pub distinct : DistinctCards h.cards

queue_fresh-IsClean :
    (c : Card) (xs : List String) (h : Hook)
    → Distinct xs
    → All (λ x. has x h.marked_as_read ≡ false) xs
    → IsClean h
    → IsClean (queue_fresh c xs h)
queue_fresh-IsClean c [] h d a t = t
queue_fresh-IsClean c (x ∷ xs) h d a t = record {
  tracked = record { once = (queue-IsTracked (x ∷ xs) h d a t.tracked).once };
  distinct = rw (queue-cards (x ∷ xs) h) (read_card-DistinctCards c.element h.cards t.distinct);
}

pub seen-IsClean : (o : Option Card) (h : Hook) → DistinctCard o → IsClean h → IsClean (seen o h)
unfolding seen
seen-IsClean none h d t = t
seen-IsClean (some c) h d t = elim (Bool-cases (is_unread c)) [
  | inl e ↦ rw e (
      queue_fresh-IsClean c (fresh c h) h
        (keep_if-Distinct (λ x. not (has x h.marked_as_read)) (notification_ids_for_element c) d)
        (keep_if-All h.marked_as_read (notification_ids_for_element c)) t)
  | inr e ↦ rw e t
]

entry_seen-IsClean : (e : Intersection) (h : Hook) → IsClean h → IsClean (entry_seen e h)
entry_seen-IsClean e h t = elim (Bool-cases (is_observed e.target h && e.is_intersecting)) [
  | inl f ↦ rw f (seen-IsClean _ h (find-DistinctCard e.target h.cards t.distinct) t)
  | inr f ↦ rw f t
]

pub entries_seen-IsClean :
    (es : List Intersection) (h : Hook) → IsClean h → IsClean (entries_seen es h)
unfolding entries_seen
entries_seen-IsClean [] h t = t
entries_seen-IsClean (e ∷ es) h t = entries_seen-IsClean es _ (entry_seen-IsClean e h t)

on_intersect-IsClean : (es : List Intersection) (h : Hook) → IsClean h → IsClean (on_intersect es h)
unfolding on_intersect
on_intersect-IsClean es h t =
    let c = entries_seen-IsClean es h t in
    elim (Bool-cases (leb 1 (length (entries_seen es h).pending_mark_as_read))) [
      | inl f ↦ rw f (record { tracked = record { once = c.tracked.once }; distinct = c.distinct })
      | inr f ↦ rw f c
    ]

on_timeout-IsClean : (h : Hook) → IsClean h → IsClean (on_timeout h)
unfolding on_timeout
on_timeout-IsClean h t = elim (Bool-cases h.mark_timeout) [
  | inl f ↦ rw f (record {
    tracked = record {
      once = λ x.
          grind
            (arith, t.tracked.once x, count_pushed-append x h.pushed (h.pending_mark_as_read ∷ []));
    };
    distinct = t.distinct;
  })
  | inr f ↦ rw f (record { tracked = record { once = t.tracked.once }; distinct = t.distinct })
]

pub setup-IsClean : (h : Hook) → IsClean h → IsClean (setup_intersection_observer h)
unfolding setup_intersection_observer observe_notifications
setup-IsClean h t = elim (Bool-cases (text_of h.auto_mark_read === "false")) [
  | inl f ↦ rw f t
  | inr f ↦ rw f (record { tracked = record { once = t.tracked.once }; distinct = t.distinct })
]

on_updated-IsClean : (h : Hook) → IsClean h → IsClean (on_updated h)
unfolding on_updated observe_notifications
on_updated-IsClean h t =
    let same = t.tracked.once in
    elim (Bool-cases (text_of h.auto_mark_read === "false")) [
      | inl f ↦ rw f (record { tracked = record { once = same }; distinct = t.distinct })
      | inr f ↦ elim (Option-cases h.observer) [
        | inl p ↦ rw (f, p) (setup-IsClean h t)
        | inr (os, p) ↦
            rw (f, p) (record { tracked = record { once = same }; distinct = t.distinct })
      ]
    ]

pub step-IsClean : (e : Event) (h : Hook) → DistinctEvents (e ∷ []) → IsClean h → IsClean (step e h)
unfolding step
step-IsClean (intersect es) h d t = on_intersect-IsClean es h t
step-IsClean timeout h d t = on_timeout-IsClean h t
step-IsClean (updated auto cards) h (d, e) t =
    on_updated-IsClean (record h { auto_mark_read = auto; cards = cards })
      (record { tracked = record { once = t.tracked.once }; distinct = d })
step-IsClean destroyed h d t = record {
  tracked = record { once = t.tracked.once };
  distinct = t.distinct;
}

split_events :
    (e : Event) (es : List Event)
    → DistinctEvents (e ∷ es)
    → DistinctEvents (e ∷ []) × DistinctEvents es
split_events (intersect _) es d = (tt, d)
split_events timeout es d = (tt, d)
split_events (updated auto cards) es (c, d) = ((c, tt), d)
split_events destroyed es d = (tt, d)

pub run-IsClean : (es : List Event) (h : Hook) → DistinctEvents es → IsClean h → IsClean (run es h)
unfolding run
run-IsClean [] h d t = t
run-IsClean (e ∷ es) h d t =
    let (now, later) = split_events e es d in run-IsClean es _ later (step-IsClean e h now t)
