-- ===== src/Nerve/Worker/Expiry.antt =====
-- The session passphrase and the time (currentSessionPassphrase, its timer).
use elektrine.Base.{
  ℕ, ◌+◌, ◌≤◌, ◌<◌, ◌≡◌, refl, true, false, Option, none, some, List, [], ◌∷◌, truthy, arith, leb,
  inl, inr, Bool-cases, ◌≢◌, eq-empty_of_truthy,
}
use elektrine.Nerve.Types.{Env, ok}
use elektrine.Nerve.Effects.{State}
use elektrine.Nerve.Storage.{get_settings}
use elektrine.Nerve.Session.{
  idle_timeout, current_session_passphrase, expire_session_passphrase_if_needed, get_nerve_session,
  Session, ready,
}
use elektrine.Nerve.Session.Clear.{clear_runtime_lem}
use elektrine.Nerve.Worker.{Event, message, tab_removed, wait, timeout, restart, fire, step, run}
use elektrine.Nerve.Stable.{Survives, cleanup-Keeps, clear_runtime-Keeps}
use elektrine.Nerve.Stable.Messages.{handle_message-Keeps}

-- Without a passphrase no timer runs; with one, the timer is due when the passphrase expires, which
-- is fifteen minutes away at most.
pub record IsFresh (s : State) : Type 0 where
  pub idle : truthy s.passphrase ≡ false → (s.timer ≡ none) × (s.expires_at ≡ 0)
  pub armed :
      truthy s.passphrase ≡ true
      → (s.timer ≡ some s.expires_at) × (0 < s.expires_at) × (s.expires_at ≤ s.now + idle_timeout)

IsFresh-Survives : (tab : Option ℕ) → Survives IsFresh tab
IsFresh-Survives tab = record {
  on_effect = λ s e p. record { idle = p.idle; armed = p.armed };
  on_stored = λ s p. record { idle = p.idle; armed = p.armed };
  on_clear = λ s p. record { idle = λ e. (refl, refl); armed = λ e. cc };
  on_open =
      λ s secret e p. record { idle = λ f. cc; armed = λ f. (refl, omega arith, omega arith) };
  on_set_pending = λ s k v e p. record { idle = p.idle; armed = p.armed };
  on_clear_pending = λ s k e p. record { idle = p.idle; armed = p.armed };
  on_set_staged = λ s k v e p. record { idle = p.idle; armed = p.armed };
  on_clear_staged = λ s k e p. record { idle = p.idle; armed = p.armed };
}

-- Every event of the worker keeps the invariant of the passphrase and its timer.
step-IsFresh : (env : Env) (s : State) (e : Event) → IsFresh s → IsFresh (step env s e)
unfolding step
step-IsFresh env s (message m sender) p =
    handle_message-Keeps IsFresh env m sender (IsFresh-Survives sender.tab_id) s p
step-IsFresh env s (tab_removed tab) p = cleanup-Keeps IsFresh env (IsFresh-Survives (some tab)) s p
step-IsFresh env s (wait n) p = record {
  idle = p.idle;
  armed = λ e. let (a, b, c) = p.armed e in (a, b, omega arith);
}
step-IsFresh env s timeout p = fire-IsFresh s.timer
  where
    fire-IsFresh : (o : Option ℕ) → IsFresh (fire env s o)
    fire-IsFresh none = p
    fire-IsFresh (some due) = elim (Bool-cases (leb due s.now)) [
      | inl e ↦ rw e (clear_runtime-Keeps IsFresh env (IsFresh-Survives none) true s p)
      | inr e ↦ rw e p
    ]
step-IsFresh env s restart p = record { idle = λ e. (refl, refl); armed = λ e. cc }

pub run-IsFresh : (env : Env) (s : State) (es : List Event) → IsFresh s → IsFresh (run env s es)
unfolding run
run-IsFresh env s [] p = p
run-IsFresh env s (e ∷ es) p = run-IsFresh env (step env s e) es (step-IsFresh env s e p)

-- Once the passphrase is absent or out of date, it is not handed out, and is forgotten.
current_session_passphrase_expired :
    (env : Env) (s : State)
    → IsFresh s
    → (truthy s.passphrase ≡ true → s.expires_at ≤ s.now)
    → ((current_session_passphrase env s).0 ≡ ok "")
      × ((current_session_passphrase env s).1.passphrase ≡ "")
unfolding current_session_passphrase expire_session_passphrase_if_needed
current_session_passphrase_expired env s f c = elim (Bool-cases (truthy s.passphrase)) [
  | inr e ↦ ground (arith, eq-empty_of_truthy s.passphrase e)
  | inl e ↦
      let (_, pos, _) = f.armed e in let late = c e in ground (arith, clear_runtime_lem env true s)
]

get_nerve_session_expired :
    (env : Env) (s : State) (r : Session)
    → (current_session_passphrase env s).0 ≡ ok ""
    → (get_nerve_session env s).0 ≡ ok r
    → r.status ≢ ready
unfolding get_nerve_session get_settings
get_nerve_session_expired env s r h e = ground arith

-- The worker `s` after the events `es` and `n` milliseconds of silence.
abbrev pub after_silence : Env → State → List Event → ℕ → State
after_silence env s es n = step env (run env s es) (wait n)

-- Though the timer may never fire: after any events that end in fifteen minutes of silence, the
-- worker that is asked for the passphrase hands out none and forgets the one that it had, and it
-- opens no vault session.
pub run_silence :
    (env : Env) (s : State) (es : List Event) (n : ℕ)
    → IsFresh s
    → idle_timeout ≤ n
    → ((current_session_passphrase env (after_silence env s es n)).0 ≡ ok "")
      × ((current_session_passphrase env (after_silence env s es n)).1.passphrase ≡ "")
      × ((r : Session)
          → (get_nerve_session env (after_silence env s es n)).0 ≡ ok r
          → r.status ≢ ready)
unfolding step
run_silence env s es n h k =
    let f = run-IsFresh env s es h in
    let t : State = record (run env s es) { now = (run env s es).now + n } in
    let (a, b) =
      current_session_passphrase_expired env t
        (record { idle = f.idle; armed = λ e. let (a, b, c) = f.armed e in (a, b, omega arith) })
        (λ e. let (a, b, c) = f.armed e in omega arith) in
    (a, b, λ r. get_nerve_session_expired env t r a)
