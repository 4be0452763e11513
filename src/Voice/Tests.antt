-- ===== src/Voice/Tests.antt =====
-- The page of a voice channel on concrete events.
use elektrine.Base.{ℕ, ◌≡◌, refl, String, true, false, some, [], ◌∷◌, ◌++◌, arith}
use elektrine.Voice.Types.{
  at, infinity, offer, answer, joined, Session, signal, new_hook, Hook, Join, offer_created,
}
use elektrine.Voice.Peers.{handle_presence_state, handle_presence_diff}
use elektrine.Voice.Machine.{
  voice_join, voice_leave, media_granted, join_ok, voice_toggle_mute, step, run, join, teardown,
  with_stream,
}
use elektrine.Voice.Tidy.{IsTidy}
use elektrine.Voice.Safety.{step-IsTidy}
use elektrine.Voice.Initiator.{meta, both_present, early_diff-both_offer}
use elektrine.Voice.Handshake.{
  Connected, newcomer_offers, other_answers, newcomer_settles, handshake-Connected,
}

-- Every key is that of a user without a number.
abbrev parse : String → ℕ
parse key = 0

abbrev joined_session : ℕ → Session
joined_session user = record {
  conversation_id = 7;
  user_id = user;
  channel = joined;
  local_stream = 0;
  tracks_enabled = true;
  peers = [];
  my_joined_at = infinity;
  muted = false;
}

abbrev asked : ℕ → Join
asked user = record { conversation_id = 7; user_id = user }

-- What a page is after a join.
abbrev page : ℕ → Hook
unfolding run step join teardown with_stream
page user = run parse (voice_join (asked user) ∷ media_granted 0 ∷ join_ok ∷ []) new_hook

page_test : (page 1).session ≡ some (joined_session 1)
unfolding page
page_test = refl

page-IsTidy : IsTidy (page 1)
unfolding page
page-IsTidy = record { owned = (refl, refl); flushed = λ n e. refl }

step-IsTidy_example : IsTidy (step parse voice_toggle_mute (page 1))
step-IsTidy_example = step-IsTidy parse voice_toggle_mute (page 1) tt page-IsTidy

-- A microphone that is granted after the user left still makes a session.
late_microphone_test :
    (run parse (voice_join (asked 1) ∷ voice_leave ∷ media_granted 0 ∷ []) new_hook).streams
    ≡ 0 ∷ []
unfolding run step join teardown with_stream
late_microphone_test = refl

-- Two joins that overlap leave a microphone that no session stops.
overlapping_joins_test :
    (run parse
      (voice_join (asked 1)
        ∷ voice_join (asked 1)
        ∷ media_granted 0
        ∷ media_granted 0
        ∷ voice_leave
        ∷ [])
      new_hook).streams
    ≡ 0 ∷ []
unfolding run step join teardown with_stream
overlapping_joins_test = refl

abbrev started : ℕ → ℕ → Session
started user time = record (joined_session user) { my_joined_at = at time }

early_diff-both_offer_example :
    ((handle_presence_diff parse
        (record { joins = ("2", meta 2 20 ∷ []) ∷ []; leaves = [] })
        (page 1)).tasks
      ≡ (page 1).tasks ++ offer_created (page 1).made 2 ∷ [])
    × ((handle_presence_state parse (both_present "2" "1" 2 20 1 10) (page 2)).tasks
        ≡ (page 2).tasks ++ offer_created (page 2).made 1 ∷ [])
unfolding page
early_diff-both_offer_example =
    early_diff-both_offer parse "1" "2" 10 20 (joined_session 1) (joined_session 2) (page 1)
      (page 2) refl refl refl refl refl (λ e. omega (arith, e)) (λ e. omega (arith, e))
      (λ e. omega (arith, e)) (omega arith)

handshake-Connected_example :
    let offered =
      newcomer_offers parse "1" "2" 20 10 (joined_session 1) (joined_session 2) (page 1) in
    let answered = other_answers parse (joined_session 1) (page 2) in
    (offered.sent ≡ (page 1).sent ++ signal (record { peer = 2; kind = offer }) ∷ [])
    × (answered.sent ≡ (page 2).sent ++ signal (record { peer = 1; kind = answer }) ∷ [])
    × Connected 2 (newcomer_settles parse (joined_session 2) offered)
    × Connected 1 answered
unfolding page
handshake-Connected_example =
    handshake-Connected parse "1" "2" 20 10 (joined_session 1) (joined_session 2) (page 1) (page 2)
      (refl, refl) (refl, refl) (refl, refl) (refl, refl)
      ((λ e. omega (arith, e)), (λ e. omega (arith, e)), (λ e. omega (arith, e))) (omega arith)
