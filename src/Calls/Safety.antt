-- ===== src/Calls/Safety.antt =====
-- Whole runs of a client.
use elektrine.Base.{ℕ, String, true, Option, none, some, arith, get_elem?, remove_at}
use elektrine.Calls.Types.{
  Payload, SignalName, peer_ready, offer, answer, ice_candidate, call_rejected, call_ended,
  call_missed, Task, Outcome, done, failed, Client,
}
use elektrine.Calls.Client.{leave_call, initiate_offer, restart_ice, remember}
use elektrine.Calls.Machine.{
  Event, initialize, signal, online, offline, connection_state, ice_trouble, local_candidate,
  settle, connected, disconnected, connection_failed, handle_signal, settle_at, on_signal, step,
}
use elektrine.Calls.Invariant.{
  IsSound, finish_call-IsSound, schedule-IsSound, flush-IsSound, resolved-IsSound, rejected-IsSound,
}

handle_signal-IsSound :
    (x : String) (name : SignalName) (p : Payload) {c : Client}
    → IsSound c
    → IsSound (handle_signal x name p c)
unfolding initiate_offer
handle_signal-IsSound x peer_ready p {c} h =
    ground (arith, flush-IsSound {c = record c { peer_ready = true }})
handle_signal-IsSound x offer p h = ground arith
handle_signal-IsSound x answer p h = ground arith
handle_signal-IsSound x ice_candidate p h = ground arith
handle_signal-IsSound x call_rejected p h = finish_call-IsSound _ h
handle_signal-IsSound x call_ended p h = finish_call-IsSound _ h
handle_signal-IsSound x call_missed p h = finish_call-IsSound _ h

on_signal-IsSound :
    (x : String) (name : SignalName) (p : Payload) {c : Client}
    → IsSound c
    → IsSound (on_signal x name p c)
unfolding on_signal
on_signal-IsSound x name p {c} h =
    ground (arith, handle_signal-IsSound x name p {c = remember name p c})

settle_at-IsSound :
    (x : String) (t : Option Task) (i : ℕ) (o : Outcome) {c : Client}
    → IsSound c
    → IsSound (settle_at x t i o c)
settle_at-IsSound x none i o h = h
settle_at-IsSound x (some t) i (done d) {c} h =
    resolved-IsSound x t d {c = record c { tasks = remove_at c.tasks i }} (ground arith)
settle_at-IsSound x (some t) i (failed m) {c} h =
    rejected-IsSound x t m {c = record c { tasks = remove_at c.tasks i }} (ground arith)

-- Every event keeps a client sound: cleaned up it has no channel, no timer and no network handlers;
-- its counter of restarts, which a connection that is established sets back, is two at most, and
-- below two while a restart is scheduled; it has reported one end of the call at most.
pub step-IsSound : (x : String) (e : Event) (c : Client) → IsSound c → IsSound (step x e c)
unfolding step leave_call restart_ice
step-IsSound x (signal name p) c h = on_signal-IsSound x name p h
step-IsSound x (settle i o) c h = settle_at-IsSound x (get_elem? c.tasks i) i o h
step-IsSound x online c h = ground (arith, schedule-IsSound {c = c} h)
step-IsSound x offline c h = ground (arith, finish_call-IsSound "failed: network_offline" {c = c} h)
step-IsSound x (connection_state connected) c h = ground arith
step-IsSound x (connection_state disconnected) c h = ground (arith, schedule-IsSound {c = c} h)
step-IsSound x (connection_state connection_failed) c h = ground (arith, schedule-IsSound {c = c} h)
step-IsSound x ice_trouble c h = ground (arith, schedule-IsSound {c = c} h)
step-IsSound x (local_candidate text) c h = ground arith
step-IsSound x initialize c h = ground arith
step-IsSound x e c h = ground arith
