-- ===== src/Calls/Tests.antt =====
-- The call client on concrete events.
use elektrine.Base.{◌≡◌, refl, true, none, some, List, [], ◌∷◌, arith, is_some}
use elektrine.Calls.Types.{Description, Payload, done, sent_offer}
use elektrine.Calls.Machine.{
  Event, initialize, channel_state, start, end, on_call_ended, signal, settle, on_signal, step, run,
  new_client, resolved,
}
use elektrine.Calls.Client.{leave_call, is_ignored, flush_pending_offer}
use elektrine.Calls.Types.{peer_ready}
use elektrine.Calls.Invariant.{IsSound}
use elektrine.Calls.Safety.{step-IsSound}
use elektrine.Calls.Silence.{run-disposed}
use elektrine.Calls.Signals.{start-end_late_media}

new_client-IsSound : IsSound (new_client "me")
new_client-IsSound = record {
  together = refl;
  no_channel = λ e. refl;
  no_timer = λ e. refl;
  no_handlers = λ e. refl;
  attempts = omega arith;
  may_restart = λ e. omega arith;
  not_ended = λ e. refl;
  ended_once = omega arith;
}

abbrev description : Description
description = record { type = "offer"; sdp = some "m=video" }

abbrev from_peer : Payload
from_peer = record {
  from_user_id = "7";
  from_client_session_id = "you";
  signal_id = "1";
  sdp = some description;
  candidate = none;
  reason = "";
}

abbrev joined : List Event
joined = initialize ∷ channel_state true ∷ on_call_ended ∷ []

abbrev calling : List Event
calling =
    initialize
    ∷ channel_state true
    ∷ start
    ∷ settle 0 (done description)
    ∷ settle 0 (done description)
    ∷ settle 0 (done description)
    ∷ signal peer_ready from_peer
    ∷ []

-- The offer is sent once the peer is ready.
calling_test : (run "" calling (new_client "me")).sent ≡ sent_offer description ∷ []
unfolding run step on_signal is_ignored resolved flush_pending_offer
calling_test = refl

step-IsSound_example : IsSound (step "" start (new_client "me"))
step-IsSound_example = step-IsSound "" start (new_client "me") new_client-IsSound

run-disposed_example :
    ((run "" calling (run "" (start ∷ end ∷ []) (new_client "me"))).sent
      ≡ (run "" (start ∷ end ∷ []) (new_client "me")).sent)
    × ((run "" calling (run "" (start ∷ end ∷ []) (new_client "me"))).channel ≡ none)
unfolding run step leave_call
run-disposed_example =
    run-disposed "" (start ∷ end ∷ []) calling (new_client "me") new_client-IsSound refl

start-end_late_media_example :
    ((run "" (start ∷ end ∷ settle 0 (done description) ∷ []) (new_client "me")).disposed ≡ true)
    × ((run ""
          (start ∷ end ∷ settle 0 (done description) ∷ end ∷ [])
          (new_client "me")).local_stream
        ≡ true)
    × (is_some
          (run ""
            (start ∷ end ∷ settle 0 (done description) ∷ end ∷ [])
            (new_client "me")).peer_connection
        ≡ true)
start-end_late_media_example =
    start-end_late_media "" description (new_client "me") refl refl refl refl
