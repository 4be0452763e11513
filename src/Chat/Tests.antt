-- ===== src/Chat/Tests.antt =====
-- The encrypted chat on a toy platform: bytes are written in unary, and an encrypted text is marked.
use elektrine.Base.{
  not, trim, ◌⊎◌, ℕ, zero, suc, ◌+◌, ◌≡◌, ◌≤◌, refl, ap, ◌∙◌, String, Bool, true, false, Option,
  none, some, List, [], ◌∷◌, ◌++◌, ◌==◌, ◌===◌, sym, if◌then◌else◌, concat, arith, All, find,
  truthy, length,
}
use elektrine.Base.Unary.{unary, encode, decode_char, decode, decode-encode}
use elektrine.Base.Effects.{Result, ok, err}
use elektrine.Chat.Types.{no_key, payload, Device, Bytes, Payload, Message, Env}
use elektrine.Chat.Store.{Slot, Chat}
use elektrine.Chat.Devices.{stable_device, stable_devices}
use elektrine.Chat.Plaintexts.{
  cache_sent_plaintext, sent_plaintext_for_payload, sent_plaintext_cache_key,
}
use elektrine.Chat.Submit.{Page, e2ee_ready, accepted, handle_submit}
use elektrine.Chat.Plaintexts.Laws.{IsLimited}
use elektrine.Chat.Submit.Laws.{Sends, is_left_to_page, handle_submit-Sends}
use elektrine.Chat.Send.{rsa_key_text, encrypt_message}
use elektrine.Chat.Send.Parts.{encrypt_message-Passes}
use elektrine.Chat.Trust.Laws.{Passes}
use elektrine.Chat.Receive.{
  wrapped, refused, plaintext, decrypt_message_element, inline_key_package_for_device,
  raw_conversation_key,
}
use elektrine.Chat.Exchange.{decrypt-encrypt}
use elektrine.Chat.Exchange.Opening.{Opens, IsNew}
use elektrine.Chat.Rotation.{Unsent, old_key-reused}

-- What follows the mark.
marked : String → Option String
marked String.[] = none
marked (String.◌∷◌ c s) = some s

decoded : Option String → Option Bytes
decoded none = none
decoded (some s) = decode s 0

abbrev env : Env
env = record {
  stringify_devices = λ ds. elim ds [ [] ↦ "" | d ∷ rest ↦ d.device_id ];
  fingerprint_text = λ f. f.device_id;
  signature_text = λ f text. text;
  sha256 = λ text. text;
  decimal = λ n. if n == 1 then "1" else "2";
  locale_before = λ a b. a === "1";
  verify = λ key signature text. some (signature === text);
  rsa_encrypt = λ key bytes. some (String.◌∷◌ "r" (encode bytes));
  rsa_decrypt = λ private_key text. decoded (marked text);
  aes_encrypt = λ key iv text. some (String.◌∷◌ "a" text);
  aes_decrypt = λ key iv text. marked text;
  bytes_to_base64 = encode;
  base64_to_bytes = λ text. decode text 0;
  random_id = λ n. concat "key-" (encode (n ∷ []));
  random_bytes = λ size n. size ∷ n ∷ [];
}

abbrev device : ℕ → String → String → Device
device user id key = record {
  user_id = some user;
  recipient_handle = none;
  origin_domain = none;
  device_id = id;
  public_key = payload (record { version = 1; algorithm = "RSA-OAEP-SHA256"; key = key });
  key_algorithm = none;
  fingerprint = none;
  signing_public_key = no_key;
  device_signature = none;
}

abbrev laptop : Device
laptop = device 1 "laptop" "laptop-public"

abbrev phone : Device
phone = device 2 "phone" "phone-public"

abbrev empty_slot {ℓ} : {A : Type ℓ} → Slot A
empty_slot = record { secure = none; local = none }

abbrev browser : String → String → Chat
browser id private_key = record {
  conversation_id = 7;
  devices = phone ∷ laptop ∷ [];
  device = record { device_id = id; private_key = private_key };
  trust = λ k. empty_slot;
  active = λ n. empty_slot;
  key_lists = λ n. empty_slot;
  raw_keys = λ n k. empty_slot;
  raw_key_cache = λ n k. none;
  unavailable = λ n k. false;
  sent_plaintexts = [];
  prepared = none;
  drawn = 0;
  pushed = [];
}

abbrev sender : Chat
sender = browser "laptop" "laptop-private"

abbrev receiver : Chat
receiver = browser "phone" "phone-private"

abbrev no_payload : Payload
no_payload = record {
  key_uid = "";
  iv = "";
  ciphertext = "";
  local_key_packages = [];
  key_packages = [];
  federated_key_packages = [];
}

message_in : Result Message → Message
message_in (ok m) = m
message_in (err e) = record {
  key_uid = "";
  devices_hash = none;
  encrypted_payload = no_payload;
  key_packages = [];
}

sending : Result Message × Chat
sending = encrypt_message env "hello" sender

sent_message : Message
unfolding message_in
sent_message = message_in sending.0

sent : encrypt_message env "hello" sender ≡ (ok sent_message, sending.1)
unfolding sent_message sending message_in encrypt_message
    elektrine.Chat.Trust.ensure_devices_trusted stable_devices elektrine.Base.sort
    elektrine.Chat.Devices.device_before elektrine.Chat.Trust.ensure_device_trusted
    elektrine.Chat.Trust.verified_device_fingerprint elektrine.Chat.Trust.device_trust_storage_key
    elektrine.Chat.Keys.conversation_key_for_devices elektrine.Chat.Send.key_package encode unary
sent = refl

-- The text of a message that was sent is kept.
kept_test :
    sent_plaintext_for_payload sent_message.encrypted_payload
      (cache_sent_plaintext sent_message.encrypted_payload "hello" sender)
    ≡ some "hello"
unfolding sent_plaintext_for_payload cache_sent_plaintext sent_plaintext_cache_key sent_message
    sending message_in encrypt_message elektrine.Chat.Trust.ensure_devices_trusted stable_devices
    elektrine.Base.sort elektrine.Chat.Devices.device_before
    elektrine.Chat.Trust.ensure_device_trusted elektrine.Chat.Trust.verified_device_fingerprint
    elektrine.Chat.Trust.device_trust_storage_key elektrine.Chat.Keys.conversation_key_for_devices
    elektrine.Chat.Send.key_package encode unary
kept_test = refl

abbrev ready_page : Page
ready_page = record { server_ready = true; user_id = 1; enabled = true }

handle_submit-Sends_example :
    let r = handle_submit env ready_page " hello " false accepted sender in
    (is_left_to_page r.0 ≡ not (e2ee_ready ready_page sender))
    × ((r.1.pushed ≡ sender.pushed) ⊎ Sends env (trim " hello ") accepted sender r)
    × IsLimited r.1
handle_submit-Sends_example =
    handle_submit-Sends env ready_page " hello " false accepted sender (omega arith)

encrypt_message-Passes_example : All (Passes env sender) (stable_devices env sender.devices)
encrypt_message-Passes_example =
    encrypt_message-Passes env "hello" sender sending.1 sent_message sent

some-inj : (a b : String) → some a ≡ some b → a ≡ b
some-inj a b h = cc

opens : Opens env "phone-public" "phone-private"
unfolding marked decoded
opens = record {
  unwraps = λ raw_key c e.
      let is = some-inj _ c e in
      (ap (λ x. decoded (marked x)) (sym is) ∙ decode-encode raw_key, ap truthy (sym is));
  decrypts = λ raw_key iv content c e. ap marked (sym (some-inj _ c e));
  decodes = λ b. decode-encode b;
}

is_new : IsNew receiver 7 sent_message.encrypted_payload
unfolding sent_plaintext_for_payload sent_message sending message_in encrypt_message
    elektrine.Chat.Trust.ensure_devices_trusted stable_devices elektrine.Base.sort
    elektrine.Chat.Devices.device_before elektrine.Chat.Trust.ensure_device_trusted
    elektrine.Chat.Trust.verified_device_fingerprint elektrine.Chat.Trust.device_trust_storage_key
    elektrine.Chat.Keys.conversation_key_for_devices elektrine.Chat.Send.key_package encode unary
is_new = record {
  not_cached = refl;
  not_secure = refl;
  not_local = refl;
  not_given_up = refl;
  not_sent = refl;
}

decrypt-encrypt_example :
    (decrypt_message_element env 7 sent_message.encrypted_payload (refused none) receiver).0
    ≡ plaintext "hello"
unfolding stable_device rsa_key_text sent_message sending message_in encrypt_message
    elektrine.Chat.Trust.ensure_devices_trusted stable_devices elektrine.Base.sort
    elektrine.Chat.Devices.device_before elektrine.Chat.Trust.ensure_device_trusted
    elektrine.Chat.Trust.verified_device_fingerprint elektrine.Chat.Trust.device_trust_storage_key
    elektrine.Chat.Keys.conversation_key_for_devices elektrine.Chat.Send.key_package encode unary
decrypt-encrypt_example =
    decrypt-encrypt env "hello" "laptop" "phone-public" sender sending.1 sent_message
      (stable_device phone) receiver 7 (refused none) sent refl refl refl refl opens is_new

abbrev old_payload : Payload
old_payload = record no_payload { key_uid = "old"; ciphertext = "agone" }

after_reading : Result Message × Chat
after_reading =
    encrypt_message env "news"
      (raw_conversation_key env 7 "old" old_payload (wrapped "r1,") receiver).1

old_key-reused_example : Unsent env "old" (1 ∷ []) "news" (message_in after_reading.0)
unfolding after_reading message_in decoded marked decode decode_char inline_key_package_for_device
    raw_conversation_key encrypt_message elektrine.Chat.Trust.ensure_devices_trusted stable_devices
    elektrine.Base.sort elektrine.Chat.Devices.device_before
    elektrine.Chat.Trust.ensure_device_trusted elektrine.Chat.Trust.verified_device_fingerprint
    elektrine.Chat.Trust.device_trust_storage_key elektrine.Chat.Keys.conversation_key_for_devices
    elektrine.Chat.Send.key_package encode unary
old_key-reused_example =
    old_key-reused env old_payload "r1," "news" (1 ∷ []) receiver after_reading.1
      (message_in after_reading.0) refl refl refl refl refl refl refl refl
