-- ===== src/Voice/Types.antt =====
-- The data of a voice channel's page.
use elektrine.Base.{ℕ, String, Bool, false, Option, none, List, []}

-- `joined_at` of a presence; `Infinity` is that of a page that has not seen its own.
pub data Time : Type 0 where
  at : ℕ → Time
  infinity : Time

-- The presence of a key: its metas, whose missing `user_id` is 0.
pub record Meta : Type 0 where
  pub user_id : ℕ
  pub joined_at : Option ℕ

abbrev pub Presence : Type 0
Presence = List (String × List Meta)

pub record Entry : Type 0 where
  pub user_id : ℕ
  pub joined_at : Time

pub record Diff : Type 0 where
  pub joins : Presence
  pub leaves : Presence

-- The kinds of a signal; a description and a candidate are the texts that `toJSON` makes of them.
pub data Kind : Type 0 where
  offer : Kind
  answer : Kind
  ice : String → Kind
  other : Kind

pub record Signal : Type 0 where
  pub peer : ℕ
  pub kind : Kind

-- `RTCPeerConnection.signalingState`
pub data Signaling : Type 0 where
  stable : Signaling
  have_local_offer : Signaling
  have_remote_offer : Signaling

-- A peer with its connection. `has_local` is whether it has a current local description: that of an
-- offer is pending until its answer is set, and the signaling state tells of it. `has_remote` is
-- whether a remote one is there, current or pending. Then the candidates that wait for a remote
-- description, and those that were handed to the connection.
pub record Peer : Type 0 where
  pub signaling : Signaling
  pub has_local : Bool
  pub has_remote : Bool
  pub closed : Bool
  pub has_audio : Bool
  pub pending_candidates : List String
  pub added_candidates : List String

abbrev pub new_peer : Peer
new_peer = record {
  signaling = stable;
  has_local = false;
  has_remote = false;
  closed = false;
  has_audio = false;
  pending_candidates = [];
  added_candidates = [];
}

pub data ChannelState : Type 0 where
  joining : ChannelState
  joined : ChannelState

-- `this.session`, without its ICE servers and its socket; the local stream is a number, the peers
-- are numbers of the objects below, by user.
pub record Session : Type 0 where
  pub conversation_id : ℕ
  pub user_id : ℕ
  pub channel : ChannelState
  pub local_stream : ℕ
  pub tracks_enabled : Bool
  pub peers : List (ℕ × ℕ)
  pub my_joined_at : Time
  pub muted : Bool

-- What `voice_join` asks for.
pub record Join : Type 0 where
  pub conversation_id : ℕ
  pub user_id : ℕ

pub data Pushed : Type 0 where
  voice_left : Pushed
  voice_error : (reason : String) → Pushed
  voice_joined : (conversation_id : ℕ) → Pushed
  voice_rejoined : (conversation_id : ℕ) → (muted : Bool) → Pushed
  voice_mute_changed : (muted : Bool) → Pushed

pub data Sent : Type 0 where
  signal : Signal → Sent
  set_muted : Bool → Sent

-- What is left of a method at an await: of `createPeer`, of `handleOffer` and of `handleAnswer`, with
-- the peer's object and its user.
pub data Task : Type 0 where
  offer_created : (object user : ℕ) → Task
  offer_set : (object user : ℕ) → Task
  remote_offer_set : (object user : ℕ) → Task
  answer_created : (object user : ℕ) → Task
  answer_set : (object user : ℕ) → Task
  remote_answer_set : (object : ℕ) → Task

-- The hook and what it holds of the platform: the peers' objects that were made, the microphone
-- streams that run, the joins that wait for a microphone, and the awaits under way.
pub record Hook : Type 0 where
  pub session : Option Session
  pub objects : ℕ → Peer
  pub made : ℕ
  pub streams : List ℕ
  pub opened : ℕ
  pub requests : List Join
  pub tasks : List Task
  pub pushed : List Pushed
  pub sent : List Sent

abbrev pub new_hook : Hook
new_hook = record {
  session = none;
  objects = λ n. new_peer;
  made = 0;
  streams = [];
  opened = 0;
  requests = [];
  tasks = [];
  pushed = [];
  sent = [];
}
