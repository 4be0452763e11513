-- ===== src/Voice/Handshake.antt =====
-- An offer and its answer (voice_channel_hook.js).
use mathlib.Core.Path.{subst}
use elektrine.Base.{
  ℕ, ◌+◌, ◌≡◌, ◌≢◌, ◌<◌, refl, sym, ap, ◌∙◌, String, true, false, none, some, List, [], ◌∷◌, ◌++◌,
  if◌then◌else◌, ◌==◌, lookup, insert, lookup-insert, same_number,
}
use elektrine.Voice.Types.{
  at, offer, answer, new_peer, stable, have_local_offer, joined, Session, signal, Hook,
}
use elektrine.Voice.Peers.{get_or_create_peer, create_peer}
use elektrine.Voice.Signals.{
  push_signal, flush_candidates, handle_offer, handle_answer, handle_signal, fulfilled,
}
use elektrine.Voice.Machine.{Event, presence_state, signaled, settle, step, run}
use elektrine.Voice.Initiator.{both_present, state_creates, different}

-- The page has an open connection to a user, with a local and a remote description.
pub record Connected (user : ℕ) (h : Hook) : Type 0 where
  pub session : Session
  pub object : ℕ
  pub in_session : h.session ≡ some session
  pub known : lookup user session.peers ≡ some object
  pub settled : (h.objects object).signaling ≡ stable
  pub has_local : (h.objects object).has_local ≡ true
  pub has_remote : (h.objects object).has_remote ≡ true
  pub not_closed : (h.objects object).closed ≡ false

abbrev offering : ℕ → Session → Hook → Hook
offering user s h = record h {
  session = some (record s { peers = insert user h.made s.peers });
  made = h.made + 1;
  objects = λ m.
      if h.made == m
      then record new_peer { signaling = have_local_offer }
      else (if h.made == m then new_peer else h.objects m);
  sent = h.sent ++ signal (record { peer = user; kind = offer }) ∷ [];
}

create_peer-offering :
    (parse : String → ℕ) (user : ℕ) (s : Session) (h : Hook)
    → h.session ≡ some s
    → s.channel ≡ joined
    → lookup user s.peers ≡ none
    → h.tasks ≡ []
    → run parse (settle 0 true ∷ settle 0 true ∷ []) (create_peer user h) ≡ offering user s h
unfolding run step create_peer get_or_create_peer fulfilled push_signal
create_peer-offering parse user s h e j unmet idle =
    rw e (rw (unmet, idle) (rw (j, same_number h.made) refl))

lookup-insert_same : (k v : ℕ) (m : List (ℕ × ℕ)) → lookup k (insert k v m) ≡ some v
lookup-insert_same k v m = lookup-insert k k v m ∙ rw (same_number k) refl

offering-Connected :
    (parse : String → ℕ) (user : ℕ) (s : Session) (h : Hook)
    → h.tasks ≡ []
    → user ≢ s.user_id
    → Connected user (
        run parse
          (signaled (record { peer = user; kind = answer }) ∷ settle 0 true ∷ [])
          (offering user s h))
unfolding run step handle_signal handle_answer fulfilled flush_candidates
offering-Connected parse user s h idle other =
    let own = different user s.user_id other in
    let known = lookup-insert_same user h.made s.peers in
    rw (own, known, idle)
      (rw (same_number h.made) (record {
        session = record s { peers = insert user h.made s.peers };
        object = h.made;
        in_session = refl;
        known = known;
        settled = rw (same_number h.made) refl;
        has_local = rw (same_number h.made) refl;
        has_remote = rw (same_number h.made) refl;
        not_closed = rw (same_number h.made) refl;
      }))

answering :
    (parse : String → ℕ) (user : ℕ) (s : Session) (h : Hook)
    → h.session ≡ some s
    → s.channel ≡ joined
    → lookup user s.peers ≡ none
    → h.tasks ≡ []
    → user ≢ s.user_id
    → let g =
        run parse
          (signaled (record { peer = user; kind = offer })
            ∷ settle 0 true
            ∷ settle 0 true
            ∷ settle 0 true
            ∷ [])
          h in
      Connected user g × (g.sent ≡ h.sent ++ signal (record { peer = user; kind = answer }) ∷ [])
unfolding run step handle_signal handle_offer get_or_create_peer fulfilled flush_candidates
    push_signal
answering parse user s h e j unmet idle other =
    let own = different user s.user_id other in
    rw e (
      rw (own, unmet, idle)
        (rw (j, same_number h.made)
          (rw (same_number h.made) (
            record {
              session = record s { channel = joined; peers = insert user h.made s.peers };
              object = h.made;
              in_session = refl;
              known = lookup-insert_same user h.made s.peers;
              settled = rw (same_number h.made) refl;
              has_local = rw (same_number h.made) refl;
              has_remote = rw (same_number h.made) refl;
              not_closed = rw (same_number h.made) refl;
            },
            refl,
          ))))

abbrev fulfil : Event
fulfil = settle 0 true

-- The newer page learns who is there, the older one gets its offer, and the newer one the answer,
-- and the platform fulfils what they await.
abbrev pub newcomer_offers :
    (String → ℕ)
    → (key other_key : String) → (time other_time : ℕ) → Session
    → Session
    → Hook
    → Hook
newcomer_offers parse key other_key time other_time s t h =
    run parse
      (presence_state (both_present key other_key s.user_id time t.user_id other_time)
        ∷ fulfil
        ∷ fulfil
        ∷ [])
      h

abbrev pub other_answers : (String → ℕ) → Session → Hook → Hook
other_answers parse s g =
    run parse (signaled (record { peer = s.user_id; kind = offer }) ∷ fulfil ∷ fulfil ∷ fulfil ∷ [])
      g

abbrev pub newcomer_settles : (String → ℕ) → Session → Hook → Hook
newcomer_settles parse t h =
    run parse (signaled (record { peer = t.user_id; kind = answer }) ∷ fulfil ∷ []) h

-- Two pages with joined channels, of different users that are not 0, neither of which has a peer
-- for the other or awaits anything: when the newer one learns who is there it sends an offer, the
-- older one sends an answer to that offer, and with the answer both have a stable
-- connection with a local and a remote description.
pub handshake-Connected :
    (parse : String → ℕ) (key other_key : String) (time other_time : ℕ) (s t : Session) (h g : Hook)
    → (h.session ≡ some s) × (g.session ≡ some t)
    → (s.channel ≡ joined) × (t.channel ≡ joined)
    → (lookup t.user_id s.peers ≡ none) × (lookup s.user_id t.peers ≡ none)
    → (h.tasks ≡ []) × (g.tasks ≡ [])
    → (s.user_id ≢ 0) × (t.user_id ≢ 0) × (s.user_id ≢ t.user_id)
    → other_time < time
    → let offered = newcomer_offers parse key other_key time other_time s t h in
      let answered = other_answers parse s g in
      (offered.sent ≡ h.sent ++ signal (record { peer = t.user_id; kind = offer }) ∷ [])
      × (answered.sent ≡ g.sent ++ signal (record { peer = s.user_id; kind = answer }) ∷ [])
      × Connected t.user_id (newcomer_settles parse t offered)
      × Connected s.user_id answered
unfolding run step
handshake-Connected parse key other_key time other_time s t h g (e, f) (j, k) (unmet, unmet')
      (idle, idle') (own, real, different_users) later =
    let me = record s { my_joined_at = at time } in
    let seen = record h { session = some me } in
    let created =
      state_creates parse key other_key time t.user_id other_time s h e own real
        (λ p. different_users (sym p)) later in
    let offered : newcomer_offers parse key other_key time other_time s t h
        ≡ offering t.user_id me seen =
      ap (run parse (fulfil ∷ fulfil ∷ [])) created
      ∙ create_peer-offering parse t.user_id me seen refl j unmet idle in
    let (answered, sent) = answering parse s.user_id t g f k unmet' idle' different_users in
    (
      ap (λ x. x.sent) offered,
      sent,
      subst (λ x. Connected t.user_id (newcomer_settles parse t x)) (sym offered)
          (offering-Connected parse t.user_id me seen idle (λ p. different_users (sym p))),
      answered,
    )
