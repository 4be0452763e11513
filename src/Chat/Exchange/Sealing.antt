-- ===== src/Chat/Exchange/Sealing.antt =====
-- What goes into a message that carries its key (encryptMessage, wrapConversationKey).
use mathlib.Core.Path.{subst}
use elektrine.Base.{
  ◌+◌, ◌≡◌, refl, sym, ap, ◌∙◌, String, true, Option, none, some, List, [], ◌∷◌, ◌===◌, is_some,
  find, keep_if, arith, inl, inr, Bool-cases,
}
use elektrine.Base.Effects.{ok-inj, ok, Result-cases, run_with-eq-ok, bind_result-eq-ok, eq_of_ok}
use elektrine.Chat.Types.{Device, Bytes, KeyPackage, Message, Env}
use elektrine.Chat.Store.{Chat}
use elektrine.Chat.Keys.{or_throw, ConversationKey, conversation_key_for_devices}
use elektrine.Chat.Send.{
  rsa_key_text, key_package, wrap_all, wrap_conversation_key, packages_for, message_of,
  encrypt_with,
}

pub conversation_key-prepared :
    (env : Env) (devices : List Device) (s : Chat)
    → (conversation_key_for_devices env devices s).1.prepared ≡ s.prepared
unfolding conversation_key_for_devices
conversation_key-prepared env devices s = ground arith

or_throw-eq-ok : {A : Type 0} (e : String) (o : Option A) {a : A} → or_throw e o ≡ ok a → o ≡ some a
or_throw-eq-ok e none h = cc
or_throw-eq-ok e (some a) h = cc

-- What went into a message whose key had to be sent along and was not prepared before.
pub record Sealed (env : Env) (k : ConversationKey) (devices : List Device) (content : String)
    (iv : Bytes) (m : Message) : Type 0 where
  pub ciphertext : String
  pub packages : List KeyPackage
  pub closed : env.aes_encrypt k.raw_key iv content ≡ some ciphertext
  pub wrapped : wrap_conversation_key env k.raw_key devices ≡ ok packages
  pub built : m ≡ message_of k (env.bytes_to_base64 iv) ciphertext packages

packages_for-wrap :
    (env : Env) (k : ConversationKey) (devices : List Device) (s : Chat) (ps : List KeyPackage)
    → (packages_for env k devices s).0 ≡ ok ps
    → s.prepared ≡ none
    → k.packages_needed ≡ true
    → wrap_conversation_key env k.raw_key devices ≡ ok ps
unfolding packages_for
packages_for-wrap env k devices s ps h fresh needed =
    elim (Result-cases (wrap_conversation_key env k.raw_key devices)) [
      | inl (qs, e) ↦ ground arith
      | inr (message, e) ↦ ground arith
    ]

needed_of_hash :
    (k : ConversationKey) (iv ciphertext h : String) (ps : List KeyPackage) (m : Message)
    → m ≡ message_of k iv ciphertext ps
    → m.devices_hash ≡ some h
    → k.packages_needed ≡ true
unfolding message_of
needed_of_hash k iv ciphertext h ps m e f = ground arith

pub encrypt_with-Sealed :
    (env : Env) (k : ConversationKey) (devices : List Device) (content h : String) (s t : Chat)
    (m : Message)
    → encrypt_with env k devices content s ≡ (ok m, t)
    → s.prepared ≡ none
    → m.devices_hash ≡ some h
    → Sealed env k devices content (env.random_bytes 12 s.drawn) m
unfolding encrypt_with
encrypt_with-Sealed env k devices content h s t m e fresh needed =
    let iv = env.random_bytes 12 s.drawn in
    let drawn = record s { drawn = s.drawn + 1 } in
    let (c, closed, e') =
      run_with-eq-ok (or_throw "OperationError" (env.aes_encrypt k.raw_key iv content), drawn) _
        e in
    let (ps, wrapped, e'') = run_with-eq-ok (packages_for env k devices drawn) _ e' in
    let built : m ≡ message_of k (env.bytes_to_base64 iv) c ps = sym (eq_of_ok _ m _ t e'') in
    record {
      ciphertext = c;
      packages = ps;
      closed = or_throw-eq-ok "OperationError" (env.aes_encrypt k.raw_key iv content) closed;
      wrapped =
          packages_for-wrap env k devices drawn ps wrapped fresh
            (needed_of_hash k (env.bytes_to_base64 iv) c h ps m built needed);
      built = built;
    }

key_package-fields :
    (env : Env) (raw_key : Bytes) (d : Device) (p : KeyPackage)
    → key_package env raw_key d ≡ ok p
    → (p.user_id ≡ d.user_id) × (p.device_id ≡ d.device_id)
unfolding key_package
key_package-fields env raw_key d p h =
    let (key, e, h') = bind_result-eq-ok (rsa_key_text d.public_key) _ h in
    let (encrypted, f, h'') =
      bind_result-eq-ok (or_throw "OperationError" (env.rsa_encrypt key raw_key)) _ h' in
    ground arith

-- The package of the first local device with an identifier.
abbrev pub HasPackage : Env → Bytes → String → Device → List KeyPackage → Type 0
HasPackage env raw_key id d ps =
    (p : KeyPackage) × (find (λ k. k.device_id === id) (keep_if (λ k. is_some k.user_id) ps)
      ≡ some p)
    × (key_package env raw_key d ≡ ok p)

some-inj : {A : Type 0} (a b : A) → some a ≡ some b → a ≡ b
some-inj a b h = cc

HasPackage-cons :
    (env : Env) (raw_key : Bytes) (id : String) (e : Device) (ds : List Device) (d : Device)
    (q : KeyPackage) (qs : List KeyPackage)
    → key_package env raw_key e ≡ ok q
    → find (λ c. c.device_id === id) (keep_if (λ c. is_some c.user_id) (e ∷ ds)) ≡ some d
    → (find (λ c. c.device_id === id) (keep_if (λ c. is_some c.user_id) ds) ≡ some d
        → HasPackage env raw_key id d qs)
    → HasPackage env raw_key id d (q ∷ qs)
HasPackage-cons env raw_key id e ds d q qs made f ih =
    let (same_user, same_id) = key_package-fields env raw_key e q made in
    elim (Bool-cases (is_some e.user_id)) [
      | inr u ↦ rw (ap is_some same_user ∙ u) (ih (rw u at f))
      | inl u ↦ elim (Bool-cases (e.device_id === id)) [
        | inr i ↦
            rw (ap is_some same_user ∙ u)
              (rw (ap (λ x. x === id) same_id ∙ i) (ih (rw i at (rw u at f))))
        | inl i ↦ rw (ap is_some same_user ∙ u) (
            rw (ap (λ x. x === id) same_id ∙ i) (
              q,
              refl,
              ap (key_package env raw_key) (sym (some-inj e d (rw i at (rw u at f)))) ∙ made,
            ))
      ]
    ]

pub find-wrap_all :
    (env : Env) (raw_key : Bytes) (id : String) (ds : List Device) (ps : List KeyPackage)
    (d : Device)
    → wrap_all env raw_key ds ≡ ok ps
    → find (λ c. c.device_id === id) (keep_if (λ c. is_some c.user_id) ds) ≡ some d
    → HasPackage env raw_key id d ps
unfolding wrap_all
find-wrap_all env raw_key id [] ps d h f = absurd_case f
  where
    absurd_case : ◌≡◌ {A = Option Device} none (some d) → HasPackage env raw_key id d ps
    absurd_case g = cc
find-wrap_all env raw_key id (e ∷ ds) ps d h f =
    let (q, made, h') = bind_result-eq-ok (key_package env raw_key e) _ h in
    let (qs, rest, h'') = bind_result-eq-ok (wrap_all env raw_key ds) _ h' in
    subst (HasPackage env raw_key id d) (ok-inj (q ∷ qs) ps h'') (
      HasPackage-cons env raw_key id e ds d q qs made f (find-wrap_all env raw_key id ds qs d rest))

pub key_package-encrypted :
    (env : Env) (raw_key : Bytes) (d : Device) (p : KeyPackage) (key : String)
    → key_package env raw_key d ≡ ok p
    → rsa_key_text d.public_key ≡ ok key
    → env.rsa_encrypt key raw_key ≡ some p.encrypted_key
unfolding key_package
key_package-encrypted env raw_key d p key h e =
    let h' = rw e at h in
    let (c, f, g) =
      bind_result-eq-ok (or_throw "OperationError" (env.rsa_encrypt key raw_key)) _ h' in
    or_throw-eq-ok "OperationError" (env.rsa_encrypt key raw_key) f
    ∙ ap some (ap (λ q. q.encrypted_key) (ok-inj _ p g))
