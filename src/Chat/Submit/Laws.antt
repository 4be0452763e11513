-- ===== src/Chat/Submit/Laws.antt =====
-- What a submit sends, and what it keeps (handleSubmit).
use elektrine.Base.{
  ◌≡◌, refl, sym, ap, ◌∙◌, String, Bool, true, false, not, [], ◌∷◌, ◌++◌, if◌then◌else◌, ◌||◌,
  truthy, trim, starts_with, inl, inr, ◌⊎◌, Bool-cases, Option-cases, All,
}
use elektrine.Base.Effects.{Result, ok, err, ok-inj, run_with}
use elektrine.Chat.Types.{Payload, Message, Env}
use elektrine.Chat.Store.{Chat}
use elektrine.Chat.Devices.{stable_devices}
use elektrine.Chat.Trust.Laws.{Passes}
use elektrine.Chat.Send.{encrypt_message}
use elektrine.Chat.Send.Parts.{encrypt_message-Passes}
use elektrine.Chat.Submit.{
  Page, e2ee_ready, Reply, accepted, refused, timed_out, Outcome, left_to_page, sent, not_sent,
  settle, deliver, caught, handle_submit,
}
use elektrine.Chat.Keys.{store_active_conversation_key}
use elektrine.Chat.Plaintexts.{
  cache_sent_plaintext, forget_sent_plaintext, sent_plaintext_cache_key, limited, set_text,
}
use elektrine.Chat.Submit.Quiet.{encrypt_message-Quiet}
use elektrine.Chat.Submit.Kept.{handle_submit-IsLimited}
use elektrine.Chat.Plaintexts.Laws.{IsLimited}

cache-pushed :
    (p : Payload) (text : String) (s : Chat) → (cache_sent_plaintext p text s).pushed ≡ s.pushed
unfolding cache_sent_plaintext
cache-pushed p text s = elim (Option-cases (sent_plaintext_cache_key p)) [
  | inl e ↦ rw e refl
  | inr (k, e) ↦ rw e (kept k (truthy text))
]
  where
    kept :
        (k : String) (b : Bool)
        → (if b
            then record s { sent_plaintexts = limited (set_text k text s.sent_plaintexts) }
            else s).pushed
          ≡ s.pushed
    kept k true = refl
    kept k false = refl

forget-pushed : (p : Payload) (s : Chat) → (forget_sent_plaintext p s).pushed ≡ s.pushed
unfolding forget_sent_plaintext
forget-pushed p s = elim (Option-cases (sent_plaintext_cache_key p)) [
  | inl e ↦ rw e refl
  | inr (k, e) ↦ rw e refl
]

-- How a submit ends whose message the server accepts, refuses, or does not answer in time.
abbrev pub outcome_of : Message → Reply → Outcome
outcome_of m accepted = sent m
outcome_of m _ = not_sent

settle-pushed :
    (m : Message) (reply : Reply) (s : Chat)
    → ((settle m reply s).0 ≡ ok (outcome_of m reply)) × ((settle m reply s).1.pushed ≡ s.pushed)
unfolding store_active_conversation_key
settle-pushed m accepted s = elim (Option-cases m.devices_hash) [
  | inl e ↦ rw e (refl, refl)
  | inr (hash, e) ↦ rw e (refl, refl)
]
settle-pushed m (refused code) s = (refl, forget-pushed m.encrypted_payload s)
settle-pushed m timed_out s = (refl, forget-pushed m.encrypted_payload s)

deliver-pushed :
    (content : String) (reply : Reply) (m : Message) (s : Chat)
    → ((deliver content reply m s).0 ≡ ok (outcome_of m reply))
      × ((deliver content reply m s).1.pushed ≡ s.pushed ++ m ∷ [])
deliver-pushed content reply m s =
    let kept = cache_sent_plaintext m.encrypted_payload content s in
    let (ends, pushes) = settle-pushed m reply (record kept { pushed = kept.pushed ++ m ∷ [] }) in
    (ends, pushes ∙ ap (λ ms. ms ++ m ∷ []) (cache-pushed m.encrypted_payload content s))

caught-ok :
    (y : Result Outcome × Chat) (o : Outcome)
    → y.0 ≡ ok o
    → ((caught y).0 ≡ o) × ((caught y).1 ≡ y.1)
caught-ok (ok o', t) o e = (ok-inj o' o e, refl)
caught-ok (err message, t) o e = cc

-- One message is sent, which was encrypted for devices that pass, and the submit ends as the server
-- replies.
abbrev pub Sends : Env → String → Reply → Chat → Outcome × Chat → Type 0
Sends env content reply s r =
    (m : Message) × ((encrypt_message env content s).0 ≡ ok m)
    × (r.1.pushed ≡ s.pushed ++ m ∷ [])
    × (r.0 ≡ outcome_of m reply)
    × All (Passes env s) (stable_devices env s.devices)

delivered :
    (env : Env) (content : String) (reply : Reply) (s : Chat) (x : Result Message × Chat)
    → encrypt_message env content s ≡ x
    → let r = caught (run_with x (deliver content reply)) in
      ((r.1.pushed ≡ s.pushed) × (r.0 ≡ not_sent)) ⊎ Sends env content reply s r
delivered env content reply s (err e, t) h =
    inl (sym (ap (λ x. x.1.pushed) h) ∙ (encrypt_message-Quiet env content s).0, refl)
delivered env content reply s (ok m, t) h =
    let (ends, pushes) = deliver-pushed content reply m t in
    let (outcome, state) = caught-ok (deliver content reply m t) (outcome_of m reply) ends in
    let quiet = sym (ap (λ x. x.1.pushed) h) ∙ (encrypt_message-Quiet env content s).0 in
    inr (
      m,
      ap (λ x. x.0) h,
      ap (λ u. u.pushed) state ∙ pushes ∙ ap (λ ms. ms ++ m ∷ []) quiet,
      outcome,
      encrypt_message-Passes env content s t m h,
    )

abbrev pub is_left_to_page : Outcome → Bool
is_left_to_page left_to_page = true
is_left_to_page _ = false

outcome_of-kept : (m : Message) (reply : Reply) → is_left_to_page (outcome_of m reply) ≡ false
outcome_of-kept m accepted = refl
outcome_of-kept m (refused code) = refl
outcome_of-kept m timed_out = refl

submitted :
    (env : Env) (page : Page) (value : String) (has_uploads : Bool) (reply : Reply) (s : Chat)
    → let r = handle_submit env page value has_uploads reply s in
      (is_left_to_page r.0 ≡ not (e2ee_ready page s))
      × ((r.1.pushed ≡ s.pushed) ⊎ Sends env (trim value) reply s r)
unfolding handle_submit
submitted env page value has_uploads reply s = elim (Bool-cases (e2ee_ready page s)) [
  | inr e ↦ rw e (refl, inl refl)
  | inl e ↦
      elim (Bool-cases (not (truthy (trim value)) || starts_with (trim value) "/" || has_uploads)) [
        | inl f ↦ rw (e, f) (refl, inl refl)
        | inr f ↦
            elim (delivered env (trim value) reply s (encrypt_message env (trim value) s) refl) [
              | inl (same, ends) ↦ rw (e, f) (ap is_left_to_page ends, inl same)
              | inr sends ↦
                  rw (e, f) (ap is_left_to_page sends.3 ∙ outcome_of-kept sends.0 reply, inr sends)
            ]
      ]
]

-- A submit is left to the page, which sends the text as it is, exactly if the chat is not ready for
-- encryption. It sends no message to the server, or one: what `encryptMessage` made of the trimmed
-- text, while every device of the conversation passes, and then it ends as the server replies. Where
-- at most fifty texts were kept before, at most fifty are kept after.
pub handle_submit-Sends :
    (env : Env) (page : Page) (value : String) (has_uploads : Bool) (reply : Reply) (s : Chat)
    → IsLimited s
    → let r = handle_submit env page value has_uploads reply s in
      (is_left_to_page r.0 ≡ not (e2ee_ready page s))
      × ((r.1.pushed ≡ s.pushed) ⊎ Sends env (trim value) reply s r)
      × IsLimited r.1
handle_submit-Sends env page value has_uploads reply s h =
    let (left, pushes) = submitted env page value has_uploads reply s in
    (left, pushes, handle_submit-IsLimited env page value has_uploads reply s h)
