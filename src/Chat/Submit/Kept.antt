-- ===== src/Chat/Submit/Kept.antt =====
-- The texts that a submit keeps (handleSubmit, cacheSentPlaintext).
use mathlib.Core.Path.{subst}
use elektrine.Base.{
  length, ◌≤◌, sym, String, Bool, not, [], ◌∷◌, ◌++◌, ◌||◌, truthy, trim, starts_with, inl, inr,
  Bool-cases, Option-cases,
}
use elektrine.Base.Effects.{Result, ok, err, run_with}
use elektrine.Chat.Types.{Message, Env}
use elektrine.Chat.Store.{M, Chat}
use elektrine.Chat.Send.{encrypt_message}
use elektrine.Chat.Submit.{
  Page, e2ee_ready, Reply, accepted, refused, timed_out, Outcome, settle, deliver, caught,
  handle_submit,
}
use elektrine.Chat.Keys.{store_active_conversation_key}
use elektrine.Chat.Plaintexts.{plaintext_limit, cache_sent_plaintext}
use elektrine.Chat.Submit.Quiet.{encrypt_message-Quiet}
use elektrine.Chat.Plaintexts.Laws.{
  IsLimited, cache_sent_plaintext-IsLimited, forget_sent_plaintext-IsLimited,
}

settle-IsLimited :
    (m : Message) (reply : Reply) (s : Chat) → IsLimited s → IsLimited (settle m reply s).1
unfolding store_active_conversation_key
settle-IsLimited m accepted s h = elim (Option-cases m.devices_hash) [
  | inl e ↦ rw e h
  | inr (hash, e) ↦ rw e h
]
settle-IsLimited m (refused code) s h = forget_sent_plaintext-IsLimited m.encrypted_payload s h
settle-IsLimited m timed_out s h = forget_sent_plaintext-IsLimited m.encrypted_payload s h

deliver-IsLimited :
    (content : String) (reply : Reply) (m : Message) (s : Chat)
    → IsLimited s
    → IsLimited (deliver content reply m s).1
deliver-IsLimited content reply m s h =
    let kept = cache_sent_plaintext m.encrypted_payload content s in
    settle-IsLimited m reply (record kept { pushed = kept.pushed ++ m ∷ [] })
      (cache_sent_plaintext-IsLimited m.encrypted_payload content s h)

caught-IsLimited : (y : Result Outcome × Chat) → IsLimited y.1 → IsLimited (caught y).1
caught-IsLimited (ok o, t) h = h
caught-IsLimited (err e, t) h = h

run_with-IsLimited :
    (x : Result Message × Chat) (f : Message → M Outcome)
    → IsLimited x.1
    → ((m : Message) (t : Chat) → IsLimited t → IsLimited (f m t).1)
    → IsLimited (run_with x f).1
run_with-IsLimited (ok m, t) f h g = g m t h
run_with-IsLimited (err e, t) f h g = h

pub handle_submit-IsLimited :
    (env : Env) (page : Page) (value : String) (has_uploads : Bool) (reply : Reply) (s : Chat)
    → IsLimited s
    → IsLimited (handle_submit env page value has_uploads reply s).1
unfolding handle_submit
handle_submit-IsLimited env page value has_uploads reply s h =
    let content = trim value in
    let quiet = (encrypt_message-Quiet env content s).1 in
    let encrypted : IsLimited (encrypt_message env content s).1 =
      subst (λ ps. length ps ≤ plaintext_limit) (sym quiet) h in
    let done = caught-IsLimited (run_with (encrypt_message env content s) (deliver content reply)) (
      run_with-IsLimited (encrypt_message env content s) (deliver content reply) encrypted
        (deliver-IsLimited content reply)) in
    elim (Bool-cases (e2ee_ready page s)) [
      | inr e ↦ rw e h
      | inl e ↦ elim (Bool-cases (not (truthy content) || starts_with content "/" || has_uploads)) [
        | inl f ↦ rw (e, f) h
        | inr f ↦ rw (e, f) done
      ]
    ]
