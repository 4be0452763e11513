-- ===== src/Voice/Tidy.antt =====
-- The microphone and the waiting candidates over all events (voice_channel_hook.js).
pub mod Signals
use elektrine.Base.{
  ℕ, ◌≡◌, refl, sym, ap, ◌∙◌, String, true, not, Option, none, some, List, [], ◌∷◌, ◌==◌, lookup,
  erase, insert, inl, inr, Bool-cases,
}
use elektrine.Voice.Types.{
  Presence, Entry, Diff, Peer, new_peer, Session, Task, offer_created, Hook,
}
use elektrine.Voice.Peers.{
  closed_object, close_in, close_of, get_or_create, create_of, create_peers, state_of, with_me,
  offered_to, gone, has_key, user_of, first_meta, joins_of, unmet, diff_of,
}
use elektrine.Voice.Peers.{
  put_object, change_object, add_task, close_peer, get_or_create_peer, create_peer,
  handle_presence_state, handle_presence_diff, presence_entries,
}

abbrev pub Owned : Option Session → List ℕ → Type 0
Owned none streams = streams ≡ []
Owned (some s) streams = (streams ≡ s.local_stream ∷ []) × (s.tracks_enabled ≡ not s.muted)

abbrev pub Flushed : Peer → Type 0
Flushed p = p.has_remote ≡ true → p.pending_candidates ≡ []

-- The microphone that runs is the session's, and is on unless it is muted; no candidate waits at a
-- connection that has its remote description.
pub record IsTidy (h : Hook) : Type 0 where
  pub owned : Owned h.session h.streams
  pub flushed : (n : ℕ) → Flushed (h.objects n)

new_peer-Flushed : Flushed new_peer
new_peer-Flushed e = refl

put-IsTidy : (n : ℕ) (p : Peer) (h : Hook) → Flushed p → IsTidy h → IsTidy (put_object n p h)
put-IsTidy n p h f tidy = record {
  owned = tidy.owned;
  flushed = λ m. elim (Bool-cases (n == m)) [
    | inl e ↦ λ r. rw e (f (rw e at r))
    | inr e ↦ λ r. rw e (tidy.flushed m (rw e at r))
  ];
}

pub change-IsTidy :
    (n : ℕ) (f : Peer → Peer) (h : Hook)
    → (Flushed (h.objects n) → Flushed (f (h.objects n)))
    → IsTidy h
    → IsTidy (change_object n f h)
change-IsTidy n f h keeps tidy = put-IsTidy n (f (h.objects n)) h (keeps (tidy.flushed n)) tidy

-- The session changes, and its stream does not.
pub session-IsTidy :
    (s t : Session) (h : Hook)
    → h.session ≡ some s
    → t.local_stream ≡ s.local_stream
    → (s.tracks_enabled ≡ not s.muted → t.tracks_enabled ≡ not t.muted)
    → IsTidy h
    → IsTidy (record h { session = some t })
session-IsTidy s t h e same keeps tidy =
    let owned : Owned (some s) h.streams = rw e at tidy.owned in
    record {
      owned = (owned.0 ∙ ap (λ n. n ∷ []) (sym same), keeps owned.1);
      flushed = tidy.flushed;
    }

close_in-IsTidy :
    (s : Session) (user : ℕ) (o : Option ℕ) (h : Hook)
    → h.session ≡ some s
    → IsTidy h
    → IsTidy (close_in s user o h)
close_in-IsTidy s user none h e tidy = tidy
close_in-IsTidy s user (some n) h e tidy =
    change-IsTidy n closed_object
      (record h { session = some (record s { peers = erase user s.peers }) }) (λ f. f)
      (session-IsTidy s (record s { peers = erase user s.peers }) h e refl (λ f. f) tidy)

close_of-IsTidy :
    (user : ℕ) (o : Option Session) (h : Hook)
    → h.session ≡ o
    → IsTidy h
    → IsTidy (close_of user o h)
close_of-IsTidy user none h e tidy = tidy
close_of-IsTidy user (some s) h e tidy = close_in-IsTidy s user (lookup user s.peers) h e tidy

pub close_peer-IsTidy : (user : ℕ) (h : Hook) → IsTidy h → IsTidy (close_peer user h)
unfolding close_peer
close_peer-IsTidy user h tidy = close_of-IsTidy user h.session h refl tidy

get_or_create-IsTidy :
    (user : ℕ) (s : Session) (o : Option ℕ) (h : Hook)
    → h.session ≡ some s
    → IsTidy h
    → IsTidy (get_or_create user s o h).1
get_or_create-IsTidy user s (some n) h e tidy = tidy
get_or_create-IsTidy user s none h e tidy =
    let t = record s { peers = insert user h.made s.peers } in
    let put = put-IsTidy h.made new_peer h new_peer-Flushed tidy in
    record { owned = (session-IsTidy s t h e refl (λ f. f) tidy).owned; flushed = put.flushed }

pub get_or_create_peer-IsTidy :
    (user : ℕ) (s : Session) (h : Hook)
    → h.session ≡ some s
    → IsTidy h
    → IsTidy (get_or_create_peer user s h).1
unfolding get_or_create_peer
get_or_create_peer-IsTidy user s h = get_or_create-IsTidy user s (lookup user s.peers) h

pub add_task-IsTidy : (t : Task) (h : Hook) → IsTidy h → IsTidy (add_task t h)
add_task-IsTidy t h tidy = record { owned = tidy.owned; flushed = tidy.flushed }

create_of-IsTidy :
    (user : ℕ) (o : Option Session) (h : Hook)
    → h.session ≡ o
    → IsTidy h
    → IsTidy (create_of user o h)
create_of-IsTidy user none h e tidy = tidy
create_of-IsTidy user (some s) h e tidy =
    let r = get_or_create_peer user s h in
    add_task-IsTidy (offer_created r.0 user) r.1 (get_or_create_peer-IsTidy user s h e tidy)

create_peers-IsTidy : (es : List Entry) (h : Hook) → IsTidy h → IsTidy (create_peers es h)
unfolding create_peer
create_peers-IsTidy [] h tidy = tidy
create_peers-IsTidy (e ∷ es) h tidy =
    create_peers-IsTidy es (create_peer e.user_id h)
      (create_of-IsTidy e.user_id h.session h refl tidy)

state_of-IsTidy :
    (entries : List Entry) (o : Option Session) (h : Hook)
    → h.session ≡ o
    → IsTidy h
    → IsTidy (state_of entries o h)
state_of-IsTidy entries none h e tidy = tidy
state_of-IsTidy entries (some s) h e tidy =
    let me = with_me entries s in
    create_peers-IsTidy (offered_to me entries) (record h { session = some me })
      (session-IsTidy s me h e refl (λ f. f) tidy)

pub handle_presence_state-IsTidy :
    (parse : String → ℕ) (state : Presence) (h : Hook)
    → IsTidy h
    → IsTidy (handle_presence_state parse state h)
unfolding handle_presence_state
handle_presence_state-IsTidy parse state h =
    state_of-IsTidy (presence_entries parse state) h.session h refl

gone-IsTidy :
    (s : Session) (parse : String → ℕ) (joins leaves : Presence) (h : Hook)
    → IsTidy h
    → IsTidy (gone s parse joins leaves h)
gone-IsTidy s parse joins [] h tidy = tidy
gone-IsTidy s parse joins ((key, metas) ∷ leaves) h tidy =
    let user = user_of parse key (first_meta metas) in
    elim (Bool-cases (has_key joins key)) [
      | inl e ↦ rw e (gone-IsTidy s parse joins leaves h tidy)
      | inr e ↦ elim (Bool-cases (user == s.user_id)) [
        | inl f ↦ rw (e, f) (gone-IsTidy s parse joins leaves h tidy)
        | inr f ↦
            rw (e, f)
              (gone-IsTidy s parse joins leaves (close_peer user h) (close_peer-IsTidy user h tidy))
      ]
    ]

joins_of-IsTidy :
    (entries : List Entry) (o : Option Session) (h : Hook)
    → IsTidy h
    → IsTidy (joins_of entries o h)
joins_of-IsTidy entries none h tidy = tidy
joins_of-IsTidy entries (some s) h tidy =
    create_peers-IsTidy (offered_to s (unmet s entries)) h tidy

diff_of-IsTidy :
    (parse : String → ℕ) (diff : Diff) (o : Option Session) (h : Hook)
    → IsTidy h
    → IsTidy (diff_of parse diff o h)
diff_of-IsTidy parse diff none h tidy = tidy
diff_of-IsTidy parse diff (some s) h tidy =
    let left = gone s parse diff.joins diff.leaves h in
    joins_of-IsTidy (presence_entries parse diff.joins) left.session left
      (gone-IsTidy s parse diff.joins diff.leaves h tidy)

pub handle_presence_diff-IsTidy :
    (parse : String → ℕ) (diff : Diff) (h : Hook)
    → IsTidy h
    → IsTidy (handle_presence_diff parse diff h)
unfolding handle_presence_diff
handle_presence_diff-IsTidy parse diff h = diff_of-IsTidy parse diff h.session h
