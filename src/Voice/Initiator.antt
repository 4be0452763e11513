-- ===== src/Voice/Initiator.antt =====
-- Which side of a pair offers (voice_channel_hook.js).
use elektrine.Base.{
  ℕ, ◌≡◌, ◌≢◌, ◌<◌, refl, sym, ap, ◌∙◌, String, true, false, not, none, some, [], ◌∷◌, ◌++◌,
  if◌then◌else◌, ltb, ◌==◌, lookup, same_number, arith,
}
use elektrine.Voice.Types.{Time, at, infinity, Meta, Presence, Entry, Session, offer_created, Hook}
use elektrine.Voice.Peers.{
  same_time, earlier, should_initiate_to, create_peer, handle_presence_state, handle_presence_diff,
  presence_entries, get_or_create_peer,
}

-- What the others see of a page.
abbrev pub entry_of : Session → Entry
entry_of s = record { user_id = s.user_id; joined_at = s.my_joined_at }

initiator :
    (t u : Time) (m n : ℕ)
    → m ≢ n
    → (if same_time t u then ltb m n else earlier t u)
      ≡ not (if same_time u t then ltb n m else earlier u t)
initiator (at t) (at u) m n h = ground (arith, h)
initiator (at t) infinity m n h = refl
initiator infinity (at u) m n h = refl
initiator infinity infinity m n h = ground (arith, h)

-- Of two pages of different users, each with the time at which the other sees it join, exactly one
-- initiates to the other.
should_initiate_to-not :
    (s t : Session)
    → s.user_id ≢ t.user_id
    → should_initiate_to s (entry_of t) ≡ not (should_initiate_to t (entry_of s))
unfolding should_initiate_to
should_initiate_to-not s t h =
    initiator t.my_joined_at s.my_joined_at t.user_id s.user_id (λ e. h (sym e))

abbrev pub meta : ℕ → ℕ → Meta
meta user time = record { user_id = user; joined_at = some time }

pub different : (m n : ℕ) → m ≢ n → (m == n) ≡ false
different m n h = ground (arith, h)

before : (m n : ℕ) → m < n → (m == n ≡ false) × (ltb m n ≡ true)
before m n h = (ground (arith, h), ground (arith, h))

diff_offers :
    (parse : String → ℕ) (key : String) (user time : ℕ) (s : Session) (h : Hook)
    → h.session ≡ some s
    → s.my_joined_at ≡ infinity
    → s.peers ≡ []
    → user ≢ 0
    → user ≢ s.user_id
    → (handle_presence_diff parse
        (record { joins = (key, meta user time ∷ []) ∷ []; leaves = [] })
        h).tasks
      ≡ h.tasks ++ offer_created h.made user ∷ []
unfolding handle_presence_diff presence_entries should_initiate_to create_peer get_or_create_peer
diff_offers parse key user time s h e never alone real other =
    let zero_test = different user 0 real in
    let own = different user s.user_id other in rw e (rw (zero_test, alone) (rw (own, never) refl))

-- The page's own presence, and that of one other page.
abbrev pub both_present : (key other_key : String) → (user time other other_time : ℕ) → Presence
both_present key other_key user time other other_time =
    (other_key, meta other other_time ∷ []) ∷ (key, meta user time ∷ []) ∷ []

-- The newer of the two creates a peer for the other.
pub state_creates :
    (parse : String → ℕ) (key other_key : String) (time other other_time : ℕ) (s : Session)
    (h : Hook)
    → h.session ≡ some s
    → s.user_id ≢ 0
    → other ≢ 0
    → other ≢ s.user_id
    → other_time < time
    → handle_presence_state parse (both_present key other_key s.user_id time other other_time) h
      ≡ create_peer other (record h { session = some (record s { my_joined_at = at time }) })
unfolding handle_presence_state presence_entries should_initiate_to
state_creates parse key other_key time other other_time s h e own_real real different_users later =
    let own_test = different s.user_id 0 own_real in
    let zero_test = different other 0 real in
    let own = different other s.user_id different_users in
    let (not_same, is_before) = before other_time time later in
    rw (e, own_test, zero_test, own, same_number s.user_id) (rw (not_same, is_before) refl)

state_offers :
    (parse : String → ℕ) (key other_key : String) (time other other_time : ℕ) (s : Session)
    (h : Hook)
    → h.session ≡ some s
    → lookup other s.peers ≡ none
    → s.user_id ≢ 0
    → other ≢ 0
    → other ≢ s.user_id
    → other_time < time
    → (handle_presence_state parse
        (both_present key other_key s.user_id time other other_time)
        h).tasks
      ≡ h.tasks ++ offer_created h.made other ∷ []
unfolding create_peer get_or_create_peer
state_offers parse key other_key time other other_time s h e unmet own_real real different_users
      later =
    ap (λ g. g.tasks)
      (state_creates parse key other_key time other other_time s h e own_real real different_users
        later)
    ∙ rw unmet refl

-- A page that hears of a newer page, before it has seen its own presence, offers to it; and the
-- newer page, once it has seen both presences, offers too: both sides offer.
pub early_diff-both_offer :
    (parse : String → ℕ) (key other_key : String) (time other_time : ℕ) (s t : Session) (h g : Hook)
    → h.session ≡ some s
    → s.my_joined_at ≡ infinity
    → s.peers ≡ []
    → g.session ≡ some t
    → lookup s.user_id t.peers ≡ none
    → s.user_id ≢ 0
    → t.user_id ≢ 0
    → s.user_id ≢ t.user_id
    → time < other_time
    → ((handle_presence_diff parse
          (record { joins = (other_key, meta t.user_id other_time ∷ []) ∷ []; leaves = [] })
          h).tasks
        ≡ h.tasks ++ offer_created h.made t.user_id ∷ [])
      × ((handle_presence_state parse
            (both_present other_key key t.user_id other_time s.user_id time)
            g).tasks
          ≡ g.tasks ++ offer_created g.made s.user_id ∷ [])
early_diff-both_offer parse key other_key time other_time s t h g e never alone f unmet real
      other_real different_users later =
    (
      diff_offers parse other_key t.user_id other_time s h e never alone other_real
          (λ p. different_users (sym p)),
      state_offers parse other_key key other_time s.user_id time t g f unmet other_real real
          different_users later,
    )
