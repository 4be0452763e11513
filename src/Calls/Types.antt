-- ===== src/Calls/Types.antt =====
-- webrtc_client.js: the fields of `WebRTCClient`, the signals of the call channel, and what its
-- asynchronous methods wait for.
use elektrine.Base.{ℕ, String, Bool, Option, List}

pub data CallType : Type 0 where
  video audio : CallType

-- A session description; `sdp` is `none` where it is no string.
pub record Description : Type 0 where
  pub type : String
  pub sdp : Option String

-- What a signal carries, an absent string being empty.
pub record Payload : Type 0 where
  pub from_user_id : String
  pub from_client_session_id : String
  pub signal_id : String
  pub sdp : Option Description
  pub candidate : Option String
  pub reason : String

pub data SignalName : Type 0 where
  peer_ready offer answer ice_candidate call_rejected call_ended call_missed : SignalName

-- What the client pushes to the channel.
pub data Sent : Type 0 where
  sent_candidate : String → Sent
  sent_offer sent_answer : Description → Sent
  ready_to_receive end_call reject_call : Sent

-- `RTCPeerConnection.signalingState`, as far as the client asks.
pub data Signaling : Type 0 where
  have_local_offer other : Signaling

-- Who waits for an offer that `initiateOffer` makes.
pub data Caller : Type 0 where
  by_peer_ready by_start : Caller

-- What follows once the camera and the microphone are granted.
pub data AfterMedia : Type 0 where
  start_call : AfterMedia
  resume_call : (initiator : Bool) → AfterMedia
  take_offer : Description → AfterMedia

-- What follows once the queued candidates are added.
pub data AfterQueue : Type 0 where
  make_answer finish_answer : AfterQueue

-- An `await` that has not settled yet, with what its method does next.
pub data Task : Type 0 where
  media : AfterMedia → Task
  -- the stream is there already, so nothing is asked for
  held_media : AfterMedia → Task
  create_offer : Caller → Task
  set_offer : Caller → Description → Task
  set_remote_offer : Task
  add_queued : (rest : List String) → AfterQueue → Task
  create_answer : Task
  set_answer : Description → Task
  set_remote_answer : Task
  add_candidate : Task
  create_restart : Task
  set_restart : Description → Task

-- How an `await` settles. The description is the promise's value, where its method uses it.
pub data Outcome : Type 0 where
  done : Description → Outcome
  failed : (message : String) → Outcome

pub record Client : Type 0 where
  pub client_session_id : String
  -- `channel`, with whether its state is "joined"
  pub channel : Option Bool
  pub peer_connection : Option Signaling
  pub local_stream : Bool
  pub remote_stream : Bool
  pub on_call_ended : Bool
  pub on_connection_established : Bool
  pub ice_candidate_queue : List String
  pub remote_description_set : Bool
  pub pending_offer : Option Description
  pub disposed : Bool
  pub cleanup_started : Bool
  pub call_ended_notified : Bool
  pub ice_restart_attempts : ℕ
  pub connection_established_notified : Bool
  pub ice_restart_timer : Bool
  pub network_handlers : Bool
  pub peer_ready : Bool
  pub should_initiate_on_peer_ready : Bool
  pub answer_in_progress : Bool
  pub handled_signals : List String
  -- what waits, what was sent and added, and the calls of the callbacks, the newest last
  pub tasks : List Task
  pub sent : List Sent
  pub added : List String
  pub ended : List String
  pub established : ℕ
