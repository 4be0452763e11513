-- ===== src/Calls/Silence.antt =====
-- What a client sends after its cleanup (webrtc_client.js).
use elektrine.Base.{
  ℕ, ◌≡◌, refl, String, true, Option, none, some, List, [], ◌∷◌, arith, get_elem?, remove_at,
}
use elektrine.Calls.Types.{
  Description, Sent, AfterQueue, make_answer, finish_answer, Task, media, held_media, add_queued,
  set_remote_offer, set_remote_answer, set_offer, Outcome, done, failed, Client, by_peer_ready,
  by_start, start_call, resume_call, take_offer, create_offer,
}
use elektrine.Calls.Client.{
  finish_call, leave_call, schedule_ice_restart, restart_ice, flush_pending_offer,
}
use elektrine.Calls.Machine.{
  Event, settle, connection_state, connected, disconnected, connection_failed, drain, process_queue,
  after_queue, resolved, rejected, settle_at, on_signal, step, run, set_signaling,
}
use elektrine.Calls.Invariant.{IsSound}
use elektrine.Calls.Safety.{step-IsSound}

-- A client without a channel that has sent `l`.
pub record IsSilent (l : List Sent) (c : Client) : Type 0 where
  pub is_disposed : c.disposed ≡ true
  pub no_channel : c.channel ≡ none
  pub has_sent : c.sent ≡ l

module _ (l : List Sent) where
  drain-IsSilent :
      (q : List String) (next : AfterQueue) {c : Client}
      → IsSilent l c
      → IsSilent l (drain q next c)
  unfolding drain
  drain-IsSilent [] make_answer h = ground arith
  drain-IsSilent [] finish_answer h = ground arith
  drain-IsSilent (x ∷ q) next {c} h = ground (arith, drain-IsSilent q next {c = c} h)

  process_queue-IsSilent :
      (next : AfterQueue) {c : Client} → IsSilent l c → IsSilent l (process_queue next c)
  unfolding after_queue
  process_queue-IsSilent make_answer {c} h =
      ground (arith, drain-IsSilent c.ice_candidate_queue make_answer {c = c} h)
  process_queue-IsSilent finish_answer {c} h =
      ground (arith, drain-IsSilent c.ice_candidate_queue finish_answer {c = c} h)

  resolved-IsSilent :
      (x : String) (t : Task) (d : Description) {c : Client}
      → IsSilent l c
      → IsSilent l (resolved x t d c)
  unfolding resolved flush_pending_offer finish_call
  resolved-IsSilent x set_remote_offer d {c} h =
      process_queue-IsSilent make_answer
        {c = record (set_signaling _ c) { remote_description_set = true }} (ground arith)
  resolved-IsSilent x set_remote_answer d {c} h =
      process_queue-IsSilent finish_answer
        {c = record (set_signaling _ c) { remote_description_set = true }} (ground arith)
  resolved-IsSilent x (add_queued rest next) d h = drain-IsSilent rest next h
  resolved-IsSilent x (media start_call) d h = ground arith
  resolved-IsSilent x (held_media start_call) d h = ground arith
  resolved-IsSilent x (media (resume_call i)) d h = ground arith
  resolved-IsSilent x (held_media (resume_call i)) d h = ground arith
  resolved-IsSilent x (media (take_offer o)) d h = ground arith
  resolved-IsSilent x (held_media (take_offer o)) d h = ground arith
  resolved-IsSilent x (set_offer by_peer_ready o) d h = ground arith
  resolved-IsSilent x (set_offer by_start o) d h = ground arith
  resolved-IsSilent x t d h = ground arith

  rejected-IsSilent :
      (x : String) (t : Task) (m : String) {c : Client}
      → IsSilent l c
      → IsSilent l (rejected x t m c)
  unfolding rejected finish_call
  rejected-IsSilent x (add_queued rest next) d h = drain-IsSilent rest next h
  rejected-IsSilent x (media start_call) d h = ground arith
  rejected-IsSilent x (held_media start_call) d h = ground arith
  rejected-IsSilent x (media (resume_call i)) d h = ground arith
  rejected-IsSilent x (held_media (resume_call i)) d h = ground arith
  rejected-IsSilent x (media (take_offer o)) d h = ground arith
  rejected-IsSilent x (held_media (take_offer o)) d h = ground arith
  rejected-IsSilent x (set_offer by_peer_ready o) d h = ground arith
  rejected-IsSilent x (set_offer by_start o) d h = ground arith
  rejected-IsSilent x (create_offer by_peer_ready) d h = ground arith
  rejected-IsSilent x (create_offer by_start) d h = ground arith
  rejected-IsSilent x t m h = ground arith

  settle_at-IsSilent :
      (x : String) (t : Option Task) (i : ℕ) (o : Outcome) {c : Client}
      → IsSilent l c
      → IsSilent l (settle_at x t i o c)
  settle_at-IsSilent x none i o h = h
  settle_at-IsSilent x (some t) i (done d) {c} h =
      resolved-IsSilent x t d {c = record c { tasks = remove_at c.tasks i }} (ground arith)
  settle_at-IsSilent x (some t) i (failed m) {c} h =
      rejected-IsSilent x t m {c = record c { tasks = remove_at c.tasks i }} (ground arith)

  step-IsSilent : (x : String) (e : Event) {c : Client} → IsSilent l c → IsSilent l (step x e c)
  unfolding step on_signal leave_call schedule_ice_restart restart_ice
  step-IsSilent x (settle i o) {c} h = settle_at-IsSilent x (get_elem? c.tasks i) i o h
  step-IsSilent x (connection_state connected) h = ground arith
  step-IsSilent x (connection_state disconnected) h = ground arith
  step-IsSilent x (connection_state connection_failed) h = ground arith
  step-IsSilent x e h = ground arith

  run-IsSilent :
      (x : String) (es : List Event) {c : Client} → IsSilent l c → IsSilent l (run x es c)
  unfolding run
  run-IsSilent x [] h = h
  run-IsSilent x (e ∷ es) h = run-IsSilent x es (step-IsSilent x e h)

run-IsSound : (x : String) (es : List Event) (c : Client) → IsSound c → IsSound (run x es c)
unfolding run
run-IsSound x [] c h = h
run-IsSound x (e ∷ es) c h = run-IsSound x es (step x e c) (step-IsSound x e c h)

-- Once a client is disposed of, no run of events, and no `await` that settles late, sends anything
-- or gives it a channel.
pub run-disposed :
    (x : String) (before after : List Event) (c : Client)
    → IsSound c
    → (run x before c).disposed ≡ true
    → ((run x after (run x before c)).sent ≡ (run x before c).sent)
      × ((run x after (run x before c)).channel ≡ none)
run-disposed x before after c h d =
    let s = run-IsSound x before c h in
    let t =
      run-IsSilent (run x before c).sent x after
        (record { is_disposed = d; no_channel = s.no_channel d; has_sent = refl }) in
    (t.has_sent, t.no_channel)
