-- ===== src/Voice/Signals.antt =====
-- voice_channel_hook.js: the signals of a session, cut at every await.
use elektrine.Base.{
  ℕ, String, Bool, true, false, not, Option, none, some, [], ◌∷◌, ◌++◌, if◌then◌else◌, ◌==◌, lookup,
}
use elektrine.Voice.Types.{
  Kind, offer, answer, ice, other, Signal, Signaling, Peer, stable, have_local_offer,
  have_remote_offer, ChannelState, joining, joined, Session, Sent, signal, Task, offer_created,
  offer_set, remote_offer_set, answer_created, answer_set, remote_answer_set, Hook,
}
use elektrine.Voice.Peers.{change_object, add_task, close_peer, get_or_create_peer}

abbrev pub push_in : ChannelState → Sent → Hook → Hook
push_in joining m h = h
push_in joined m h = record h { sent = h.sent ++ m ∷ [] }

abbrev pub push_of : Option Session → Sent → Hook → Hook
push_of none m h = h
push_of (some s) m h = push_in s.channel m h

unfoldable pub push_signal : ℕ → Kind → Hook → Hook
push_signal user kind h = push_of h.session (signal (record { peer = user; kind = kind })) h

-- The candidates that waited are handed over with no signal in between.
unfoldable pub flush_candidates : Peer → Peer
flush_candidates p = record p {
  pending_candidates = [];
  added_candidates = p.added_candidates ++ p.pending_candidates;
}

abbrev pub take_candidate : String → Peer → Peer
take_candidate c p =
    if p.has_remote
    then record p { added_candidates = p.added_candidates ++ c ∷ [] }
    else record p { pending_candidates = p.pending_candidates ++ c ∷ [] }

-- In a session, up to the first await.
unfoldable pub handle_offer : ℕ → Session → Hook → Hook
unfolding get_or_create_peer
handle_offer user s h =
    let r = get_or_create_peer user s h in add_task (remote_offer_set r.0 user) r.1

abbrev pub answer_of : Option ℕ → Hook → Hook
answer_of none h = h
answer_of (some n) h = add_task (remote_answer_set n) h

unfoldable pub handle_answer : ℕ → Session → Hook → Hook
handle_answer user s h = answer_of (lookup user s.peers) h

unfoldable pub handle_remote_candidate : ℕ → String → Session → Hook → Hook
unfolding get_or_create_peer
handle_remote_candidate user c s h =
    let r = get_or_create_peer user s h in change_object r.0 (take_candidate c) r.1

abbrev pub by_kind : ℕ → Kind → Session → Hook → Hook
by_kind user offer s h = handle_offer user s h
by_kind user answer s h = handle_answer user s h
by_kind user (ice c) s h = handle_remote_candidate user c s h
by_kind user other s h = h

abbrev pub signal_of : Signal → Option Session → Hook → Hook
signal_of m none h = h
signal_of m (some s) h = if m.peer == s.user_id then h else by_kind m.peer m.kind s h

unfoldable pub handle_signal : Signal → Hook → Hook
unfolding handle_offer handle_answer handle_remote_candidate
handle_signal m h = signal_of m h.session h

-- `setLocalDescription` of an offer and of an answer, and `setRemoteDescription` of them. An answer
-- makes the pending descriptions of both sides the current ones.
abbrev pub offer_here : Peer → Peer
offer_here p = record p { signaling = have_local_offer }

abbrev pub answer_here : Peer → Peer
answer_here p = record p { has_local = true; signaling = stable }

abbrev pub offer_there : Peer → Peer
offer_there p = record p { has_remote = true; signaling = have_remote_offer }

abbrev pub answer_there : Peer → Peer
answer_there p = record p { has_local = true; has_remote = true; signaling = stable }

abbrev is_negotiating : Signaling → Signaling → Bool
is_negotiating have_local_offer have_local_offer = true
is_negotiating have_remote_offer have_remote_offer = true
is_negotiating _ _ = false

-- Whether the platform can fulfil an await: in another state of the connection it rejects the
-- description. A remote offer is taken in every state, a local one rolled back for it.
abbrev pub is_possible : Task → Hook → Bool
is_possible (offer_created n user) h = true
is_possible (offer_set n user) h = not (is_negotiating have_remote_offer (h.objects n).signaling)
is_possible (remote_offer_set n user) h = true
is_possible (answer_created n user) h = is_negotiating have_remote_offer (h.objects n).signaling
is_possible (answer_set n user) h = is_negotiating have_remote_offer (h.objects n).signaling
is_possible (remote_answer_set n) h = is_negotiating have_local_offer (h.objects n).signaling

-- An await that the platform fulfils: `createOffer`, `createAnswer`, `setLocalDescription` and
-- `setRemoteDescription`, whose connection moves first, and the code up to the next one.
unfoldable pub fulfilled : Task → Hook → Hook
unfolding push_signal flush_candidates
fulfilled (offer_created n user) h = add_task (offer_set n user) h
fulfilled (offer_set n user) h = push_signal user offer (change_object n offer_here h)
fulfilled (remote_offer_set n user) h =
    add_task (answer_created n user) (change_object n (λ p. flush_candidates (offer_there p)) h)
fulfilled (answer_created n user) h = add_task (answer_set n user) h
fulfilled (answer_set n user) h = push_signal user answer (change_object n answer_here h)
fulfilled (remote_answer_set n) h = change_object n (λ p. flush_candidates (answer_there p)) h

-- One that it rejects: `createPeer` closes its peer, the others are caught by `handleSignal`.
unfoldable pub rejected : Task → Hook → Hook
unfolding close_peer
rejected (offer_created n user) h = close_peer user h
rejected (offer_set n user) h = close_peer user h
rejected _ h = h
