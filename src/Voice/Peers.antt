-- ===== src/Voice/Peers.antt =====
-- voice_channel_hook.js: the peers of a session.
use elektrine.Base.{
  ℕ, ◌+◌, String, Bool, true, false, not, Option, none, some, List, [], ◌∷◌, ◌++◌, if◌then◌else◌,
  ltb, ◌==◌, ◌===◌, keep_if, find, is_some, lookup, erase, insert,
}
use elektrine.Voice.Types.{
  Time, at, infinity, Meta, Presence, Entry, Diff, Peer, new_peer, Session, Task, offer_created,
  Hook,
}

abbrev pub same_time : Time → Time → Bool
same_time (at m) (at n) = m == n
same_time infinity infinity = true
same_time _ _ = false

abbrev pub earlier : Time → Time → Bool
earlier (at m) (at n) = ltb m n
earlier (at m) infinity = true
earlier infinity _ = false

-- With what `parseInt` makes of a key.
abbrev pub first_meta : List Meta → Meta
first_meta [] = record { user_id = 0; joined_at = none }
first_meta (m ∷ ms) = m

abbrev pub user_of : (String → ℕ) → String → Meta → ℕ
user_of parse key m = if m.user_id == 0 then parse key else m.user_id

abbrev time_of : Option ℕ → Time
time_of none = at 0
time_of (some n) = at n

unfoldable pub presence_entries : (String → ℕ) → Presence → List Entry
presence_entries parse [] = []
presence_entries parse ((key, metas) ∷ state) =
    record {
      user_id = user_of parse key (first_meta metas);
      joined_at = time_of (first_meta metas).joined_at;
    }
    ∷ presence_entries parse state

-- In a session.
unfoldable pub should_initiate_to : Session → Entry → Bool
should_initiate_to s peer =
    if same_time peer.joined_at s.my_joined_at
    then ltb peer.user_id s.user_id
    else earlier peer.joined_at s.my_joined_at

abbrev pub put_object : ℕ → Peer → Hook → Hook
put_object n p h = record h { objects = λ m. if n == m then p else h.objects m }

abbrev pub change_object : ℕ → (Peer → Peer) → Hook → Hook
change_object n f h = put_object n (f (h.objects n)) h

abbrev pub add_task : Task → Hook → Hook
add_task t h = record h { tasks = h.tasks ++ t ∷ [] }

abbrev pub closed_object : Peer → Peer
closed_object p = record p { closed = true; has_audio = false }

abbrev pub close_in : Session → ℕ → Option ℕ → Hook → Hook
close_in s user none h = h
close_in s user (some n) h =
    change_object n closed_object
      (record h { session = some (record s { peers = erase user s.peers }) })

abbrev pub close_of : ℕ → Option Session → Hook → Hook
close_of user none h = h
close_of user (some s) h = close_in s user (lookup user s.peers) h

unfoldable pub close_peer : ℕ → Hook → Hook
close_peer user h = close_of user h.session h

abbrev pub made_peer : ℕ → Session → Hook → Hook
made_peer user s h = record (put_object h.made new_peer h) {
  made = h.made + 1;
  session = some (record s { peers = insert user h.made s.peers });
}

abbrev pub get_or_create : ℕ → Session → Option ℕ → Hook → ℕ × Hook
get_or_create user s none h = (h.made, made_peer user s h)
get_or_create user s (some n) h = (n, h)

-- In a session.
unfoldable pub get_or_create_peer : ℕ → Session → Hook → ℕ × Hook
get_or_create_peer user s h = get_or_create user s (lookup user s.peers) h

abbrev pub create_of : ℕ → Option Session → Hook → Hook
create_of user none h = h
create_of user (some s) h =
    let r = get_or_create_peer user s h in add_task (offer_created r.0 user) r.1

-- As the initiator.
unfoldable pub create_peer : ℕ → Hook → Hook
unfolding get_or_create_peer
create_peer user h = create_of user h.session h

abbrev pub create_peers : List Entry → Hook → Hook
create_peers [] h = h
create_peers (e ∷ es) h = create_peers es (create_peer e.user_id h)

abbrev joined_at_of : Time → Option Entry → Time
joined_at_of t none = t
joined_at_of t (some me) = me.joined_at

abbrev pub with_me : List Entry → Session → Session
with_me entries s = record s {
  my_joined_at = joined_at_of s.my_joined_at (find (λ e. e.user_id == s.user_id) entries);
}

abbrev pub offered_to : Session → List Entry → List Entry
offered_to s entries =
    keep_if (should_initiate_to s) (keep_if (λ e. not (e.user_id == s.user_id)) entries)

abbrev pub state_of : List Entry → Option Session → Hook → Hook
state_of entries none h = h
state_of entries (some s) h =
    let me = with_me entries s in
    create_peers (offered_to me entries) (record h { session = some me })

unfoldable pub handle_presence_state : (String → ℕ) → Presence → Hook → Hook
unfolding create_peer should_initiate_to
handle_presence_state parse state h = state_of (presence_entries parse state) h.session h

abbrev pub has_key : Presence → String → Bool
has_key [] k = false
has_key ((j, m) ∷ p) k = if j === k then true else has_key p k

abbrev pub gone : Session → (String → ℕ) → Presence → Presence → Hook → Hook
gone s parse joins [] h = h
gone s parse joins ((key, metas) ∷ leaves) h =
    let user = user_of parse key (first_meta metas) in
    gone s parse joins leaves
      (if has_key joins key then h else if user == s.user_id then h else close_peer user h)

abbrev pub unmet : Session → List Entry → List Entry
unmet s entries = keep_if (λ e. not (is_some (lookup e.user_id s.peers))) entries

abbrev pub joins_of : List Entry → Option Session → Hook → Hook
joins_of entries none h = h
joins_of entries (some s) h = create_peers (offered_to s (unmet s entries)) h

abbrev pub diff_of : (String → ℕ) → Diff → Option Session → Hook → Hook
diff_of parse diff none h = h
diff_of parse diff (some s) h =
    let left = gone s parse diff.joins diff.leaves h in
    joins_of (presence_entries parse diff.joins) left.session left

unfoldable pub handle_presence_diff : (String → ℕ) → Diff → Hook → Hook
unfolding create_peer should_initiate_to close_peer presence_entries
handle_presence_diff parse diff h = diff_of parse diff h.session h
