-- ===== src/Chat/Submit.antt =====
-- chat_e2ee_hook.js: a submit of the chat's form, to the server's reply or the timeout.
pub mod Quiet
pub mod Kept
pub mod Laws
use elektrine.Base.{
  ℕ, String, Bool, false, not, ◌&&◌, ◌||◌, Option, none, some, [], ◌∷◌, ◌++◌, if◌then◌else◌, ltb,
  leb, ◌==◌, ◌===◌, length, truthy, is_some, find, starts_with, trim,
}
use elektrine.Base.Effects.{Result, ok, err, pure, get, modify, ◌>>=◌, ◌>>◌}
use elektrine.Chat.Types.{Message, Env}
use elektrine.Chat.Store.{M, Chat}
use elektrine.Chat.Keys.{store_active_conversation_key}
use elektrine.Chat.Send.{encrypt_message}
use elektrine.Chat.Plaintexts.{cache_sent_plaintext, forget_sent_plaintext}

abbrev pub max_devices : ℕ
max_devices = 64

-- What the page says of a chat: `serverE2EEReady`, `userId`, and whether the user turned
-- encryption on for the conversation; the browser has the crypto APIs.
pub record Page : Type 0 where
  pub server_ready : Bool
  pub user_id : ℕ
  pub enabled : Bool

abbrev same_user : ℕ → Option ℕ → Bool
same_user user none = false
same_user user (some n) = n == user

-- `localDeviceAdvertised`, of a device that was loaded. An identifier that is missing is 0.
unfoldable pub local_device_advertised : Page → Chat → Bool
local_device_advertised page s =
    truthy s.device.device_id
    && ltb 0 page.user_id
    && is_some (
        find (λ d. same_user page.user_id d.user_id && d.device_id === s.device.device_id)
          s.devices)

unfoldable pub e2ee_capable : Page → Chat → Bool
unfolding local_device_advertised
e2ee_capable page s =
    page.server_ready
    && ltb 0 s.conversation_id
    && ltb 0 (length s.devices)
    && leb (length s.devices) max_devices
    && local_device_advertised page s

unfoldable pub e2ee_ready : Page → Chat → Bool
unfolding e2ee_capable
e2ee_ready page s =
    e2ee_capable page s && ltb 0 s.conversation_id && ltb 0 page.user_id && page.enabled

pub data Reply : Type 0 where
  accepted : Reply
  refused : Option String → Reply
  timed_out : Reply

pub data Outcome : Type 0 where
  -- the form is submitted as it is, in clear text
  left_to_page : Outcome
  blocked : Outcome
  sent : Message → Outcome
  not_sent : Outcome

abbrev pub mark_packages_sent : Message → Option String → M (Unit {0})
mark_packages_sent m none = pure tt
mark_packages_sent m (some hash) = do
  s ← get
  store_active_conversation_key s.conversation_id m.key_uid hash (some hash)

-- The callback of `send_client_encrypted_message`, or its timeout.
abbrev pub settle : Message → Reply → M Outcome
settle m accepted = do mark_packages_sent m m.devices_hash; pure (sent m)
settle m (refused code) = do modify (forget_sent_plaintext m.encrypted_payload); pure not_sent
settle m timed_out = do modify (forget_sent_plaintext m.encrypted_payload); pure not_sent

-- The text is kept, and the message pushed.
abbrev pub deliver : String → Reply → Message → M Outcome
deliver content reply m = do
  modify (cache_sent_plaintext m.encrypted_payload content)
  modify (λ s. record s { pushed = s.pushed ++ m ∷ [] })
  settle m reply

abbrev pub caught : Result Outcome × Chat → Outcome × Chat
caught (ok o, s) = (o, s)
caught (err e, s) = (not_sent, s)

module _ (env : Env) where
  abbrev pub send : String → Reply → M Outcome
  send content reply = do m ← encrypt_message env content; deliver content reply m

  unfoldable pub handle_submit :
      Page → (value : String) → (has_uploads : Bool) → Reply → Chat → Outcome × Chat
  unfolding e2ee_ready store_active_conversation_key forget_sent_plaintext cache_sent_plaintext
  handle_submit page value has_uploads reply s =
      if e2ee_ready page s
      then if not (truthy (trim value)) || starts_with (trim value) "/" || has_uploads
        then (blocked, s)
        else caught (send (trim value) reply s)
      else (left_to_page, s)
