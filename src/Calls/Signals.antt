-- ===== src/Calls/Signals.antt =====
-- Signals that arrive twice, and a camera that is granted too late.
use elektrine.Base.{
  ◌≡◌, refl, String, true, false, ◌||◌, not, List, [], ◌∷◌, arith, is_some, inl, inr, Bool-cases,
  eq_refl,
}
use elektrine.Calls.Types.{
  Description, Payload, SignalName, peer_ready, offer, answer, ice_candidate, call_rejected,
  call_ended, call_missed, done, Client,
}
use elektrine.Calls.Client.{
  is_ignored, remember, finish_call, initiate_offer, flush_pending_offer, signal_key, leave_call,
}
use elektrine.Calls.Machine.{handle_signal, on_signal, start, end, settle, step, run, resolved}

-- A handler forgets the signals only with the channel.
handle_signal_memory :
    (x : String) (name : SignalName) (p : Payload) (c : Client)
    → is_some (handle_signal x name p c).channel ≡ true
    → (handle_signal x name p c).handled_signals ≡ c.handled_signals
unfolding initiate_offer flush_pending_offer finish_call
handle_signal_memory x peer_ready p c = ground arith
handle_signal_memory x offer p c = ground arith
handle_signal_memory x answer p c = ground arith
handle_signal_memory x ice_candidate p c = ground arith
handle_signal_memory x call_rejected p c = ground arith
handle_signal_memory x call_ended p c = ground arith
handle_signal_memory x call_missed p c = ground arith

remembered-is_ignored :
    (name : SignalName) (p : Payload) (c : Client) (ks : List String)
    → c.handled_signals ≡ signal_key name p ∷ ks
    → is_ignored name p c ≡ true
unfolding is_ignored
remembered-is_ignored name p c ks e = rw e (ground (arith, eq_refl (signal_key name p)))

on_signal_again :
    (x : String) (name : SignalName) (p : Payload) (c : Client)
    → on_signal x name p (handle_signal x name p (remember name p c))
      ≡ handle_signal x name p (remember name p c)
unfolding on_signal
on_signal_again x name p c =
    let h = handle_signal x name p (remember name p c) in
    ground (
      arith,
      handle_signal_memory x name p (remember name p c),
      remembered-is_ignored name p h c.handled_signals,
    )

-- A signal that arrives a second time changes nothing.
on_signal_idem :
    (x : String) (name : SignalName) (p : Payload) (c : Client)
    → on_signal x name p (on_signal x name p c) ≡ on_signal x name p c
unfolding on_signal
on_signal_idem x name p c = elim (Bool-cases (not (is_some c.channel) || is_ignored name p c)) [
  | inl e ↦ rw e (rw e refl)
  | inr e ↦ rw e (on_signal_again x name p c)
]

-- The end of a call is reported once: finishing a second time changes nothing.
finish_call_idem :
    (reason again : String) (c : Client)
    → c.on_call_ended ≡ true
    → finish_call again (finish_call reason c) ≡ finish_call reason c
unfolding finish_call
finish_call_idem reason again c h = ground arith

-- A client that holds no stream and awaits nothing starts a call, which the user ends while the
-- camera is being granted: then the client is disposed of, and holds the stream and a new connection
-- that a later `endCall` does not release.
pub start-end_late_media :
    (x : String) (d : Description) (c : Client)
    → c.disposed ≡ false
    → c.cleanup_started ≡ false
    → c.tasks ≡ []
    → c.local_stream ≡ false
    → ((run x (start ∷ end ∷ settle 0 (done d) ∷ []) c).disposed ≡ true)
      × ((run x (start ∷ end ∷ settle 0 (done d) ∷ end ∷ []) c).local_stream ≡ true)
      × (is_some (run x (start ∷ end ∷ settle 0 (done d) ∷ end ∷ []) c).peer_connection ≡ true)
unfolding run step leave_call resolved
start-end_late_media x d c a b e f = (ground arith, ground arith, ground arith)
