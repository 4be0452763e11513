-- ===== src/Voice/Tidy/Signals.antt =====
-- Signals and awaits, and what is kept of the page (voice_channel_hook.js).
use elektrine.Base.{
  ℕ, ◌≡◌, refl, String, Bool, true, false, Option, none, some, [], ◌∷◌, ◌++◌, ◌==◌, remove_at,
  lookup, inl, inr, Bool-cases, ◌&&◌, if◌then◌else◌,
}
use elektrine.Voice.Types.{
  Kind, offer, answer, ice, other, Signal, Peer, ChannelState, joining, joined, Session, Sent, Task,
  offer_created, offer_set, remote_offer_set, answer_created, answer_set, remote_answer_set, Hook,
}
use elektrine.Voice.Peers.{change_object, get_or_create_peer}
use elektrine.Voice.Signals.{
  push_signal, flush_candidates, handle_offer, handle_answer, handle_remote_candidate,
  handle_signal, fulfilled, rejected,
}
use elektrine.Voice.Signals.{
  push_in, push_of, take_candidate, answer_of, by_kind, signal_of, offer_here, answer_here,
  offer_there, answer_there, is_possible,
}
use elektrine.Voice.Machine.{settle_at}
use elektrine.Voice.Tidy.{
  Flushed, IsTidy, change-IsTidy, add_task-IsTidy, close_peer-IsTidy, get_or_create_peer-IsTidy,
}

push_in-IsTidy : (c : ChannelState) (m : Sent) (h : Hook) → IsTidy h → IsTidy (push_in c m h)
push_in-IsTidy joining m h tidy = tidy
push_in-IsTidy joined m h tidy = record { owned = tidy.owned; flushed = tidy.flushed }

push_of-IsTidy : (o : Option Session) (m : Sent) (h : Hook) → IsTidy h → IsTidy (push_of o m h)
push_of-IsTidy none m h tidy = tidy
push_of-IsTidy (some s) m h tidy = push_in-IsTidy s.channel m h tidy

pub push_signal-IsTidy :
    (user : ℕ) (kind : Kind) (h : Hook) → IsTidy h → IsTidy (push_signal user kind h)
unfolding push_signal
push_signal-IsTidy user kind h tidy = push_of-IsTidy h.session _ h tidy

flush-Flushed : (p : Peer) → Flushed (flush_candidates p)
unfolding flush_candidates
flush-Flushed p e = refl

take_candidate-Flushed : (c : String) (p : Peer) → Flushed p → Flushed (take_candidate c p)
take_candidate-Flushed c p f = elim (Bool-cases p.has_remote) [
  | inl e ↦ rw e (λ r. f e)
  | inr e ↦ rw e (λ r. absurd_case r)
]
  where
    absurd_case : ◌≡◌ {A = Bool} false true → p.pending_candidates ++ c ∷ [] ≡ []
    absurd_case x = cc

answer_of-IsTidy : (o : Option ℕ) (h : Hook) → IsTidy h → IsTidy (answer_of o h)
answer_of-IsTidy none h tidy = tidy
answer_of-IsTidy (some n) h tidy = add_task-IsTidy (remote_answer_set n) h tidy

by_kind-IsTidy :
    (user : ℕ) (kind : Kind) (s : Session) (h : Hook)
    → h.session ≡ some s
    → IsTidy h
    → IsTidy (by_kind user kind s h)
unfolding handle_offer handle_answer handle_remote_candidate
by_kind-IsTidy user offer s h e tidy =
    let r = get_or_create_peer user s h in
    add_task-IsTidy (remote_offer_set r.0 user) r.1 (get_or_create_peer-IsTidy user s h e tidy)
by_kind-IsTidy user answer s h e tidy = answer_of-IsTidy (lookup user s.peers) h tidy
by_kind-IsTidy user (ice c) s h e tidy =
    let r = get_or_create_peer user s h in
    change-IsTidy r.0 (take_candidate c) r.1 (take_candidate-Flushed c (r.1.objects r.0))
      (get_or_create_peer-IsTidy user s h e tidy)
by_kind-IsTidy user other s h e tidy = tidy

signal_of-IsTidy :
    (m : Signal) (o : Option Session) (h : Hook)
    → h.session ≡ o
    → IsTidy h
    → IsTidy (signal_of m o h)
signal_of-IsTidy m none h e tidy = tidy
signal_of-IsTidy m (some s) h e tidy = elim (Bool-cases (m.peer == s.user_id)) [
  | inl f ↦ rw f tidy
  | inr f ↦ rw f (by_kind-IsTidy m.peer m.kind s h e tidy)
]

pub handle_signal-IsTidy : (m : Signal) (h : Hook) → IsTidy h → IsTidy (handle_signal m h)
unfolding handle_signal
handle_signal-IsTidy m h tidy = signal_of-IsTidy m h.session h refl tidy

fulfilled-IsTidy : (t : Task) (h : Hook) → IsTidy h → IsTidy (fulfilled t h)
unfolding fulfilled
fulfilled-IsTidy (offer_created n user) h tidy = add_task-IsTidy (offer_set n user) h tidy
fulfilled-IsTidy (offer_set n user) h tidy =
    push_signal-IsTidy user offer (change_object n offer_here h)
      (change-IsTidy n offer_here h (λ f. f) tidy)
fulfilled-IsTidy (remote_offer_set n user) h tidy =
    let f = λ (p : Peer). flush_candidates (offer_there p) in
    add_task-IsTidy (answer_created n user) (change_object n f h)
      (change-IsTidy n f h (λ e. flush-Flushed (offer_there (h.objects n))) tidy)
fulfilled-IsTidy (answer_created n user) h tidy = add_task-IsTidy (answer_set n user) h tidy
fulfilled-IsTidy (answer_set n user) h tidy =
    push_signal-IsTidy user answer (change_object n answer_here h)
      (change-IsTidy n answer_here h (λ f. f) tidy)
fulfilled-IsTidy (remote_answer_set n) h tidy =
    change-IsTidy n (λ p. flush_candidates (answer_there p)) h
      (λ e. flush-Flushed (answer_there (h.objects n))) tidy

rejected-IsTidy : (t : Task) (h : Hook) → IsTidy h → IsTidy (rejected t h)
unfolding rejected
rejected-IsTidy (offer_created n user) h tidy = close_peer-IsTidy user h tidy
rejected-IsTidy (offer_set n user) h tidy = close_peer-IsTidy user h tidy
rejected-IsTidy (remote_offer_set n user) h tidy = tidy
rejected-IsTidy (answer_created n user) h tidy = tidy
rejected-IsTidy (answer_set n user) h tidy = tidy
rejected-IsTidy (remote_answer_set n) h tidy = tidy

pub settle_at-IsTidy :
    (i : ℕ) (fulfils : Bool) (o : Option Task) (h : Hook)
    → IsTidy h
    → IsTidy (settle_at i fulfils o h)
settle_at-IsTidy i fulfils none h tidy = tidy
settle_at-IsTidy i fulfils (some t) h tidy =
    let left = record h { tasks = remove_at h.tasks i } in
    let still : IsTidy left = record { owned = tidy.owned; flushed = tidy.flushed } in
    elim (fulfils && is_possible t h)
      as (λ b. IsTidy (if b then fulfilled t left else rejected t left)) [
        | true ↦ fulfilled-IsTidy t left still
        | false ↦ rejected-IsTidy t left still
      ]
