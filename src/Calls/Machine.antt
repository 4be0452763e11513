-- ===== src/Calls/Machine.antt =====
-- webrtc_client.js: what happens to a client, one event at a time: the application's calls, the
-- channel's signals, the platform's events, and an `await` that settles.
use elektrine.Base.{
  ℕ, ◌+◌, String, Bool, true, false, not, ◌&&◌, ◌||◌, Option, none, some, List, [], ◌∷◌, ◌++◌,
  if◌then◌else◌, leb, is_some, or_text, get_elem?, remove_at,
}
use elektrine.Calls.Types.{
  Description, Payload, SignalName, peer_ready, offer, answer, ice_candidate, call_rejected,
  call_ended, call_missed, sent_candidate, sent_offer, sent_answer, ready_to_receive, end_call,
  reject_call, Signaling, have_local_offer, other, Caller, by_peer_ready, by_start, AfterMedia,
  start_call, resume_call, take_offer, AfterQueue, make_answer, finish_answer, Task, media,
  held_media, create_offer, set_offer, set_remote_offer, add_queued, create_answer, set_answer,
  set_remote_answer, add_candidate, create_restart, set_restart, Outcome, done, failed, Client,
}
use elektrine.Calls.Client.{
  max_ice_restart_attempts, await, push_signal, finish_call, failure, leave_call,
  create_peer_connection, flush_pending_offer, initiate_offer, schedule_ice_restart, restart_ice,
  is_ignored, remember, request_media, handle_offer, handle_answer, handle_ice_candidate,
  on_peer_ready,
}

-- `RTCPeerConnection.connectionState`, as far as the client asks.
pub data ConnectionState : Type 0 where
  connected disconnected connection_failed : ConnectionState

pub data Event : Type 0 where
  initialize : Event
  channel_state : (joined : Bool) → Event
  start : Event
  resume : (initiator : Bool) → Event
  end reject : Event
  on_call_ended on_connection_established : Event
  signal : SignalName → Payload → Event
  online offline : Event
  connection_state : ConnectionState → Event
  ice_trouble : Event
  local_candidate : String → Event
  track : Event
  restart_timer : Event
  settle : (index : ℕ) → Outcome → Event

-- `setLocalDescription` and `setRemoteDescription` move the state of an open connection.
abbrev pub set_signaling : Signaling → Client → Client
set_signaling s c = if is_some c.peer_connection then record c { peer_connection = some s } else c

unfoldable pub after_media : AfterMedia → Client → Client
unfolding create_peer_connection initiate_offer push_signal
after_media start_call c =
    initiate_offer by_start
      (record (create_peer_connection c) { should_initiate_on_peer_ready = true })
after_media (resume_call initiator) c =
    push_signal ready_to_receive
      (record (create_peer_connection c) { should_initiate_on_peer_ready = initiator })
after_media (take_offer d) c = await set_remote_offer (create_peer_connection c)

-- A failure of `startCall` or `resumeCall` goes to the application.
unfoldable pub media_failed : AfterMedia → String → Client → Client
media_failed start_call message c = c
media_failed (resume_call initiator) message c = c
media_failed (take_offer d) message c = finish_call (failure message "offer_handling_failed") c

unfoldable pub offer_failed : Caller → String → Client → Client
offer_failed by_peer_ready message c = finish_call (failure message "offer_failed") c
offer_failed by_start message c = c

-- The end of `initiateOffer`, which flushes; the "peer_ready" handler flushes once more.
unfoldable pub offer_ready : Caller → Description → Client → Client
offer_ready by_peer_ready d c =
    flush_pending_offer (flush_pending_offer (record c { pending_offer = some d }))
offer_ready by_start d c = flush_pending_offer (record c { pending_offer = some d })

unfoldable pub after_queue : AfterQueue → Client → Client
after_queue make_answer c = await create_answer c
after_queue finish_answer c = record c { answer_in_progress = false }

-- The loop of `processIceCandidateQueue`; without a connection `addIceCandidate` throws at once.
unfoldable pub drain : List String → AfterQueue → Client → Client
unfolding after_queue
drain [] next c = after_queue next (record c { ice_candidate_queue = [] })
drain (x ∷ rest) next c = elim c.peer_connection [
  | none ↦ drain rest next c
  | some s ↦ await (add_queued rest next) (record c { added = c.added ++ x ∷ [] })
]

abbrev pub process_queue : AfterQueue → Client → Client
process_queue next c =
    if is_some c.peer_connection
    then drain c.ice_candidate_queue next c
    else after_queue next (record c { ice_candidate_queue = [] })

unfoldable pub restart_failed : String → Client → Client
restart_failed message c =
    if leb max_ice_restart_attempts c.ice_restart_attempts
    then finish_call (failure message "ice_restart_failed") c
    else c

-- A call of a method of `this.peerConnection` when that is `null` throws this message.
module _ (null_error : String) where
  unfoldable pub resolved : Task → Description → Client → Client
  unfolding after_media offer_ready drain after_queue restart_failed
  resolved (media next) d c = after_media next (record c { local_stream = true })
  resolved (held_media next) d c = after_media next c
  resolved (create_offer who) d c = await (set_offer who d) c
  resolved (set_offer who made) d c = offer_ready who made (set_signaling have_local_offer c)
  resolved set_remote_offer d c =
      process_queue make_answer (record (set_signaling other c) { remote_description_set = true })
  resolved (add_queued rest next) d c = drain rest next c
  resolved create_answer d c = await (set_answer d) c
  resolved (set_answer made) d c = push_signal (sent_answer made) (set_signaling other c)
  resolved set_remote_answer d c =
      process_queue finish_answer (record (set_signaling other c) { remote_description_set = true })
  resolved add_candidate d c = c
  resolved create_restart d c =
      if is_some c.peer_connection then await (set_restart d) c else restart_failed null_error c
  resolved (set_restart made) d c = push_signal (sent_offer made) (set_signaling have_local_offer c)

  unfoldable pub rejected : Task → String → Client → Client
  unfolding media_failed offer_failed drain after_queue restart_failed after_media
  rejected (media next) m c = media_failed next m c
  -- it is fulfilled in any case
  rejected (held_media next) m c = after_media next c
  rejected (create_offer who) m c = offer_failed who m c
  rejected (set_offer who made) m c = offer_failed who m c
  rejected (add_queued rest next) m c = drain rest next c
  rejected set_remote_answer m c =
      finish_call (failure m "answer_handling_failed") (record c { answer_in_progress = false })
  rejected add_candidate m c = c
  rejected create_restart m c = restart_failed m c
  rejected (set_restart made) m c = restart_failed m c
  rejected _ m c = finish_call (failure m "offer_handling_failed") c

  abbrev pub settle_task : Task → Outcome → Client → Client
  settle_task t (done d) c = resolved t d c
  settle_task t (failed m) c = rejected t m c

  abbrev pub handle_signal : SignalName → Payload → Client → Client
  handle_signal peer_ready p c = on_peer_ready c
  handle_signal offer p c = handle_offer p.sdp c
  handle_signal answer p c = handle_answer p.sdp c
  handle_signal ice_candidate p c = handle_ice_candidate p.candidate c
  handle_signal call_rejected p c = finish_call "rejected" c
  handle_signal call_ended p c = finish_call (or_text p.reason "ended") c
  handle_signal call_missed p c = finish_call "missed" c

  -- The handlers of a channel that was left are not called.
  unfoldable pub on_signal : SignalName → Payload → Client → Client
  on_signal name p c =
      if not (is_some c.channel) || is_ignored name p c
      then c
      else handle_signal name p (remember name p c)

  abbrev pub on_connection_state : ConnectionState → Client → Client
  on_connection_state connected c =
      if c.connection_established_notified || not c.on_connection_established
      then record c { ice_restart_attempts = 0 }
      else record c {
        ice_restart_attempts = 0;
        connection_established_notified = true;
        established = c.established + 1;
      }
  on_connection_state disconnected c = schedule_ice_restart c
  on_connection_state connection_failed c = schedule_ice_restart c

  abbrev pub settle_at : Option Task → ℕ → Outcome → Client → Client
  settle_at none i o c = c
  settle_at (some t) i o c = settle_task t o (record c { tasks = remove_at c.tasks i })

  unfoldable pub step : Event → Client → Client
  step initialize c =
      if c.disposed then c else record c { channel = some false; network_handlers = true }
  step (channel_state joined) c =
      if is_some c.channel then record c { channel = some joined } else c
  step start c = if c.disposed then c else request_media start_call c
  step (resume initiator) c = if c.disposed then c else request_media (resume_call initiator) c
  step end c = leave_call end_call c
  step reject c = leave_call reject_call c
  step on_call_ended c = record c { on_call_ended = true }
  step on_connection_established c = record c { on_connection_established = true }
  step (signal name p) c = on_signal name p c
  step online c =
      if c.network_handlers
        && not c.disposed
        && is_some c.peer_connection
        && c.remote_description_set
      then schedule_ice_restart c
      else c
  step offline c =
      if c.network_handlers && not c.disposed then finish_call "failed: network_offline" c else c
  step (connection_state s) c = if is_some c.peer_connection then on_connection_state s c else c
  step ice_trouble c = if is_some c.peer_connection then schedule_ice_restart c else c
  step (local_candidate text) c =
      if is_some c.peer_connection then push_signal (sent_candidate text) c else c
  step track c = if is_some c.peer_connection then record c { remote_stream = true } else c
  step restart_timer c =
      if c.ice_restart_timer then restart_ice (record c { ice_restart_timer = false }) else c
  step (settle i o) c = settle_at (get_elem? c.tasks i) i o c

  unfoldable pub run : List Event → Client → Client
  run [] c = c
  run (e ∷ es) c = run es (step e c)

-- The constructor.
abbrev pub new_client : String → Client
new_client id = record {
  client_session_id = id;
  channel = none;
  peer_connection = none;
  local_stream = false;
  remote_stream = false;
  on_call_ended = false;
  on_connection_established = false;
  ice_candidate_queue = [];
  remote_description_set = false;
  pending_offer = none;
  disposed = false;
  cleanup_started = false;
  call_ended_notified = false;
  ice_restart_attempts = 0;
  connection_established_notified = false;
  ice_restart_timer = false;
  network_handlers = false;
  peer_ready = false;
  should_initiate_on_peer_ready = false;
  answer_in_progress = false;
  handled_signals = [];
  tasks = [];
  sent = [];
  added = [];
  ended = [];
  established = 0;
}
