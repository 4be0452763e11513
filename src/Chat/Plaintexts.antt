-- ===== src/Chat/Plaintexts.antt =====
-- chat_e2ee_hook.js: the texts of the messages that were sent from this page, the oldest first.
pub mod Laws
use elektrine.Base.{
  ℕ, String, ◌&&◌, Option, none, some, List, [], ◌∷◌, if◌then◌else◌, ltb, ◌===◌, truthy, length,
  concat,
}
use elektrine.Chat.Types.{Payload}
use elektrine.Chat.Store.{Chat}

-- `Map.get`, `Map.set` and `Map.delete` on a `Map` in the order of insertion.
abbrev pub lookup_text {ℓ} : {V : Type ℓ} → String → List (String × V) → Option V
lookup_text k [] = none
lookup_text k ((j, v) ∷ m) = if j === k then some v else lookup_text k m

abbrev pub set_text {ℓ} : {V : Type ℓ} → String → V → List (String × V) → List (String × V)
set_text k v [] = (k, v) ∷ []
set_text k v ((j, w) ∷ m) = if j === k then (j, v) ∷ m else (j, w) ∷ set_text k v m

abbrev pub delete_text {ℓ} : {V : Type ℓ} → String → List (String × V) → List (String × V)
delete_text k [] = []
delete_text k ((j, w) ∷ m) = if j === k then delete_text k m else (j, w) ∷ delete_text k m

abbrev pub plaintext_limit : ℕ
plaintext_limit = 50

-- `none` where the payload has no key or no ciphertext.
unfoldable pub sent_plaintext_cache_key : Payload → Option String
sent_plaintext_cache_key p =
    if truthy p.key_uid && truthy p.ciphertext
    then some (concat p.key_uid (concat ":" p.ciphertext))
    else none

abbrev drop_oldest : List (String × String) → List (String × String)
drop_oldest [] = []
drop_oldest (x ∷ m) = m

abbrev pub limited : List (String × String) → List (String × String)
limited m = if ltb plaintext_limit (length m) then drop_oldest m else m

abbrev pub cache_at : Option String → String → Chat → Chat
cache_at none text s = s
cache_at (some k) text s =
    if truthy text
    then record s { sent_plaintexts = limited (set_text k text s.sent_plaintexts) }
    else s

-- The timer that forgets the text is `plaintext_expired`.
unfoldable pub cache_sent_plaintext : Payload → String → Chat → Chat
unfolding sent_plaintext_cache_key
cache_sent_plaintext p text s = cache_at (sent_plaintext_cache_key p) text s

unfoldable pub plaintext_expired : String → Chat → Chat
plaintext_expired k s = record s { sent_plaintexts = delete_text k s.sent_plaintexts }

abbrev pub forget_at : Option String → Chat → Chat
forget_at none s = s
forget_at (some k) s = record s { sent_plaintexts = delete_text k s.sent_plaintexts }

unfoldable pub forget_sent_plaintext : Payload → Chat → Chat
unfolding sent_plaintext_cache_key
forget_sent_plaintext p s = forget_at (sent_plaintext_cache_key p) s

abbrev plaintext_at : Option String → Chat → Option String
plaintext_at none s = none
plaintext_at (some k) s = lookup_text k s.sent_plaintexts

unfoldable pub sent_plaintext_for_payload : Payload → Chat → Option String
unfolding sent_plaintext_cache_key
sent_plaintext_for_payload p s = plaintext_at (sent_plaintext_cache_key p) s
