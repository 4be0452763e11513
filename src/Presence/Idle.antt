-- ===== src/Presence/Idle.antt =====
-- The time without an activity, and what the page tells the server (presence_hooks.js).
use elektrine.Base.{
  ℕ, suc, ◌+◌, ◌≡◌, ◌<◌, ◌≤◌, refl, Bool, true, false, Option, none, some, List, [], ◌∷◌, ◌++◌,
  if◌then◌else◌, leb, arith, inl, inr, ◌∙◌, ap, Bool-cases,
}
use elektrine.Presence.Tracker.{
  Push, reset_away_timer, back, fire, auto_away_time, auto_away_timeout, user_activity, Tracker,
  Event, activity, visibility, wait, timeout, auto_away_set, auto_away_cleared, connection,
  destroyed, handle_activity, step, run,
}

-- How often the page reports that the user is away.
abbrev pub reports : List Push → ℕ
reports [] = 0
reports (auto_away_timeout ∷ ps) = suc (reports ps)
reports (user_activity ∷ ps) = reports ps

-- The time that passes.
abbrev pub time_passed : List Event → ℕ
time_passed [] = 0
time_passed (wait n ∷ es) = n + time_passed es
time_passed (_ ∷ es) = time_passed es

-- No timer is due for so long.
abbrev Quiet : ℕ → Option ℕ → ℕ → Type 0
Quiet left none now = Unit
Quiet left (some due) now = now + left < due

record IsIdle (count left : ℕ) (s : Tracker) : Type 0 where
  same : reports s.pushed ≡ count
  quiet : Quiet left s.away_timeout s.now

reports-back : (ps : List Push) → reports (ps ++ user_activity ∷ []) ≡ reports ps
reports-back [] = refl
reports-back (auto_away_timeout ∷ ps) = ground (arith, reports-back ps)
reports-back (user_activity ∷ ps) = reports-back ps

if-IsIdle :
    (b : Bool) {count left : ℕ} {s t : Tracker}
    → IsIdle count left s
    → IsIdle count left t
    → IsIdle count left (if b then s else t)
if-IsIdle true p q = p
if-IsIdle false p q = q

reset-IsIdle :
    (count left : ℕ) (s : Tracker)
    → left < auto_away_time
    → IsIdle count left s
    → IsIdle count left (reset_away_timer s)
reset-IsIdle count left s h p = record { same = p.same; quiet = omega (arith, h) }

back-IsIdle : (count left : ℕ) (s : Tracker) → IsIdle count left s → IsIdle count left (back s)
back-IsIdle count left s p =
    if-IsIdle s.is_away
      (if-IsIdle s.connected (record { same = reports-back s.pushed ∙ p.same; quiet = p.quiet })
        (record { same = p.same; quiet = p.quiet }))
      p

fire-IsIdle :
    (count left : ℕ) (o : Option ℕ) (s : Tracker)
    → Quiet left o s.now
    → IsIdle count left s
    → IsIdle count left (fire o s)
fire-IsIdle count left none s q p = p
fire-IsIdle count left (some due) s q p = elim (Bool-cases (leb due s.now)) [
  | inl e ↦ absurd (ground (arith, q, e))
  | inr e ↦ rw e p
]

waited : (n left : ℕ) (o : Option ℕ) (now : ℕ) → Quiet (n + left) o now → Quiet left o (now + n)
waited n left none now q = tt
waited n left (some due) now q = omega (arith, q)

-- The event with what is left of the time after it.
step-IsIdle :
    (count : ℕ) (e : Event) (es : List Event) (s : Tracker)
    → time_passed (e ∷ es) < auto_away_time
    → IsIdle count (time_passed (e ∷ es)) s
    → IsIdle count (time_passed es) (step e s)
unfolding step handle_activity
step-IsIdle count activity es s h p =
    if-IsIdle s.listening
      (back-IsIdle count (time_passed es) (reset_away_timer s)
        (reset-IsIdle count (time_passed es) s h p))
      p
step-IsIdle count (visibility true) es s h p =
    if-IsIdle s.listening
      (back-IsIdle count (time_passed es) (reset_away_timer s)
        (reset-IsIdle count (time_passed es) s h p))
      p
step-IsIdle count (visibility false) es s h p = if-IsIdle s.listening p p
step-IsIdle count (wait n) es s h p = record {
  same = p.same;
  quiet = waited n (time_passed es) s.away_timeout s.now p.quiet;
}
step-IsIdle count timeout es s h p = fire-IsIdle count (time_passed es) s.away_timeout s p.quiet p
step-IsIdle count (auto_away_set true) es s h p =
    if-IsIdle s.listening (record { same = p.same; quiet = p.quiet }) p
step-IsIdle count (auto_away_set false) es s h p = if-IsIdle s.listening p p
step-IsIdle count auto_away_cleared es s h p =
    if-IsIdle s.listening (record { same = p.same; quiet = p.quiet }) p
step-IsIdle count (connection up) es s h p = record { same = p.same; quiet = p.quiet }
step-IsIdle count destroyed es s h p = record { same = p.same; quiet = tt }

time_later : (e : Event) (es : List Event) → time_passed es ≤ time_passed (e ∷ es)
time_later activity es = omega arith
time_later (visibility visible) es = omega arith
time_later (wait n) es = omega arith
time_later timeout es = omega arith
time_later (auto_away_set was_auto) es = omega arith
time_later auto_away_cleared es = omega arith
time_later (connection up) es = omega arith
time_later destroyed es = omega arith

run-IsIdle :
    (count : ℕ) (es : List Event) (s : Tracker)
    → time_passed es < auto_away_time
    → IsIdle count (time_passed es) s
    → reports (run es s).pushed ≡ count
unfolding run
run-IsIdle count [] s h p = p.same
run-IsIdle count (e ∷ es) s h p =
    run-IsIdle count es (step e s) (omega (arith, h, time_later e es))
      (step-IsIdle count e es s h p)

listening-IsIdle :
    (b : Bool) {count left : ℕ} {s : Tracker} (t : Tracker)
    → b ≡ true
    → IsIdle count left s
    → IsIdle count left (if b then s else t)
listening-IsIdle true t h p = p
listening-IsIdle false t h p = absurd (ground (arith, h))

unreported :
    (es : List Event) (s : Tracker)
    → s.listening ≡ true
    → time_passed es < auto_away_time
    → reports (run (activity ∷ es) s).pushed ≡ reports s.pushed
unfolding run step handle_activity
unreported es s h k = run-IsIdle (reports s.pushed) es (step activity s) k (
    listening-IsIdle s.listening s h (
      back-IsIdle (reports s.pushed) (time_passed es) (reset_away_timer s)
        (record { same = refl; quiet = omega (arith, k) })))

reports-away : (ps : List Push) → reports (ps ++ auto_away_timeout ∷ []) ≡ suc (reports ps)
reports-away [] = refl
reports-away (auto_away_timeout ∷ ps) = ap suc (reports-away ps)
reports-away (user_activity ∷ ps) = reports-away ps

due_now : (now n : ℕ) → auto_away_time ≤ n → leb (now + auto_away_time) (now + n) ≡ true
due_now now n h = ground (arith, h)

reported_away :
    (n : ℕ) (s : Tracker)
    → s.listening ≡ true
    → s.connected ≡ true
    → auto_away_time ≤ n
    → reports (run (activity ∷ wait n ∷ timeout ∷ []) s).pushed ≡ suc (reports s.pushed)
unfolding run step handle_activity
reported_away n s h c k = elim (Bool-cases s.is_away) [
  | inl e ↦
      rw (h, e)
        (rw c (
          rw (due_now s.now n k)
            (reports-away (s.pushed ++ user_activity ∷ []) ∙ ap suc (reports-back s.pushed))))
  | inr e ↦ rw (h, e) (rw (due_now s.now n k) (rw c (reports-away s.pushed)))
]

-- After an activity on a page that listens, whatever happens, the server's events and changes of the
-- connection included, the page does not report that the user is away before five minutes have
-- passed. If it is connected and nothing happens for that long, it reports it once when its timer
-- fires.
pub activity-reports :
    (es : List Event) (n : ℕ) (s : Tracker)
    → s.listening ≡ true
    → time_passed es < auto_away_time
    → s.connected ≡ true
    → auto_away_time ≤ n
    → (reports (run (activity ∷ es) s).pushed ≡ reports s.pushed)
      × (reports (run (activity ∷ wait n ∷ timeout ∷ []) s).pushed ≡ suc (reports s.pushed))
activity-reports es n s h k c l = (unreported es s h k, reported_away n s h c l)
