-- ===== src/Calls/Invariant.antt =====
-- What is kept of a client by every method: what is left after a cleanup, the counter of restarts,
-- and the reports of an end (webrtc_client.js).
use elektrine.Base.{◌≤◌, ◌<◌, ◌≡◌, String, true, false, none, some, List, [], ◌∷◌, length, arith}
use elektrine.Calls.Types.{
  Description, Sent, sent_offer, sent_answer, have_local_offer, other, Caller, AfterMedia,
  AfterQueue, Task, Client, media, held_media, create_offer, start_call, resume_call, take_offer,
  by_peer_ready, by_start, make_answer, finish_answer, set_offer, set_remote_offer, add_queued,
  create_answer, set_answer, set_remote_answer, add_candidate, create_restart, set_restart,
}
use elektrine.Calls.Client.{
  max_ice_restart_attempts, push_signal, finish_call, flush_pending_offer, schedule_ice_restart,
}
use elektrine.Calls.Machine.{
  drain, after_queue, after_media, media_failed, offer_failed, offer_ready, restart_failed,
  process_queue, set_signaling, resolved, rejected,
}

pub record IsSound (c : Client) : Type 0 where
  pub together : c.cleanup_started ≡ c.disposed
  pub no_channel : c.disposed ≡ true → c.channel ≡ none
  pub no_timer : c.disposed ≡ true → c.ice_restart_timer ≡ false
  pub no_handlers : c.disposed ≡ true → c.network_handlers ≡ false
  pub attempts : c.ice_restart_attempts ≤ max_ice_restart_attempts
  pub may_restart : c.ice_restart_timer ≡ true → c.ice_restart_attempts < max_ice_restart_attempts
  pub not_ended : c.call_ended_notified ≡ false → c.ended ≡ []
  pub ended_once : length c.ended ≤ 1

pub finish_call-IsSound :
    (reason : String) {c : Client} → IsSound c → IsSound (finish_call reason c)
unfolding finish_call
finish_call-IsSound reason h = ground arith

pub push_signal-IsSound : (m : Sent) {c : Client} → IsSound c → IsSound (push_signal m c)
unfolding push_signal
push_signal-IsSound m h = ground arith

pub flush-IsSound : {c : Client} → IsSound c → IsSound (flush_pending_offer c)
unfolding flush_pending_offer
flush-IsSound h = ground arith

pub schedule-IsSound : {c : Client} → IsSound c → IsSound (schedule_ice_restart c)
unfolding schedule_ice_restart
schedule-IsSound h = ground arith

drain-IsSound :
    (q : List String) (next : AfterQueue) {c : Client} → IsSound c → IsSound (drain q next c)
unfolding drain
drain-IsSound [] make_answer h = ground arith
drain-IsSound [] finish_answer h = ground arith
drain-IsSound (x ∷ q) next {c} h = ground (arith, drain-IsSound q next {c = c} h)

after_media-IsSound : (next : AfterMedia) {c : Client} → IsSound c → IsSound (after_media next c)
unfolding after_media
after_media-IsSound start_call h = ground arith
after_media-IsSound (resume_call initiator) h = ground arith
after_media-IsSound (take_offer d) h = ground arith

offer_ready-IsSound :
    (who : Caller) (d : Description) {c : Client} → IsSound c → IsSound (offer_ready who d c)
unfolding offer_ready
offer_ready-IsSound by_peer_ready d {c} h =
    flush-IsSound (flush-IsSound {c = record c { pending_offer = some d }} (ground arith))
offer_ready-IsSound by_start d {c} h =
    flush-IsSound {c = record c { pending_offer = some d }} (ground arith)

offer_failed-IsSound :
    (who : Caller) (m : String) {c : Client} → IsSound c → IsSound (offer_failed who m c)
unfolding offer_failed
offer_failed-IsSound by_peer_ready m h = finish_call-IsSound _ h
offer_failed-IsSound by_start m h = h

restart_failed-IsSound : (m : String) {c : Client} → IsSound c → IsSound (restart_failed m c)
unfolding restart_failed finish_call
restart_failed-IsSound m h = ground arith

process_queue-IsSound :
    (next : AfterQueue) {c : Client} → IsSound c → IsSound (process_queue next c)
unfolding after_queue
process_queue-IsSound make_answer {c} h =
    ground (arith, drain-IsSound c.ice_candidate_queue make_answer {c = c} h)
process_queue-IsSound finish_answer {c} h =
    ground (arith, drain-IsSound c.ice_candidate_queue finish_answer {c = c} h)

-- An `await` that resolves.
pub resolved-IsSound :
    (e : String) (t : Task) (d : Description) {c : Client} → IsSound c → IsSound (resolved e t d c)
unfolding resolved
resolved-IsSound e (media next) d {c} h =
    after_media-IsSound next {c = record c { local_stream = true }} (ground arith)
resolved-IsSound e (held_media next) d h = after_media-IsSound next h
resolved-IsSound e (create_offer who) d h = ground arith
resolved-IsSound e (set_offer who made) d {c} h =
    offer_ready-IsSound who made {c = set_signaling have_local_offer c} (ground arith)
resolved-IsSound e set_remote_offer d {c} h =
    process_queue-IsSound make_answer
      {c = record (set_signaling other c) { remote_description_set = true }} (ground arith)
resolved-IsSound e (add_queued rest next) d h = drain-IsSound rest next h
resolved-IsSound e create_answer d h = ground arith
resolved-IsSound e (set_answer made) d {c} h =
    push_signal-IsSound (sent_answer made) {c = set_signaling other c} (ground arith)
resolved-IsSound e set_remote_answer d {c} h =
    process_queue-IsSound finish_answer
      {c = record (set_signaling other c) { remote_description_set = true }} (ground arith)
resolved-IsSound e add_candidate d h = h
resolved-IsSound e create_restart d {c} h = ground (arith, restart_failed-IsSound e {c = c} h)
resolved-IsSound e (set_restart made) d {c} h =
    push_signal-IsSound (sent_offer made) {c = set_signaling have_local_offer c} (ground arith)

-- An `await` that throws.
pub rejected-IsSound :
    (e : String) (t : Task) (m : String) {c : Client} → IsSound c → IsSound (rejected e t m c)
unfolding rejected media_failed
rejected-IsSound e (media start_call) m h = h
rejected-IsSound e (media (resume_call initiator)) m h = h
rejected-IsSound e (media (take_offer d)) m h = finish_call-IsSound _ h
rejected-IsSound e (held_media next) m h = after_media-IsSound next h
rejected-IsSound e (create_offer who) m h = offer_failed-IsSound who m h
rejected-IsSound e (set_offer who made) m h = offer_failed-IsSound who m h
rejected-IsSound e (add_queued rest next) m h = drain-IsSound rest next h
rejected-IsSound e set_remote_answer m {c} h =
    finish_call-IsSound _ {c = record c { answer_in_progress = false }} (ground arith)
rejected-IsSound e add_candidate m h = h
rejected-IsSound e create_restart m h = restart_failed-IsSound m h
rejected-IsSound e (set_restart made) m h = restart_failed-IsSound m h
rejected-IsSound e set_remote_offer m h = finish_call-IsSound _ h
rejected-IsSound e create_answer m h = finish_call-IsSound _ h
rejected-IsSound e (set_answer made) m h = finish_call-IsSound _ h
