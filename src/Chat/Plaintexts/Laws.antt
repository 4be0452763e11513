-- ===== src/Chat/Plaintexts/Laws.antt =====
-- The texts that are kept (cacheSentPlaintext, forgetSentPlaintext).
use elektrine.Base.{
  Option, none, suc, ◌≡◌, ◌≤◌, refl, String, true, false, some, List, [], ◌∷◌, ltb, ◌===◌, truthy,
  length, arith, eq_refl, inl, inr, Bool-cases,
}
use elektrine.Chat.Types.{Payload}
use elektrine.Chat.Store.{Chat}
use elektrine.Chat.Plaintexts.{
  cache_at, lookup_text, set_text, delete_text, forget_at, forget_sent_plaintext, plaintext_limit,
  limited, cache_sent_plaintext, sent_plaintext_for_payload, sent_plaintext_cache_key,
}

lookup_text-set_text :
    (k v : String) (m : List (String × String)) → lookup_text k (set_text k v m) ≡ some v
lookup_text-set_text k v [] = rw (eq_refl k) refl
lookup_text-set_text k v ((j, w) ∷ m) = elim (Bool-cases (j === k)) [
  | inl e ↦ rw (e, e) refl
  | inr e ↦ rw e (rw e (lookup_text-set_text k v m))
]

length-set_text :
    (k v : String) (m : List (String × String)) → length (set_text k v m) ≤ suc (length m)
length-set_text k v [] = omega arith
length-set_text k v ((j, w) ∷ m) = ground (arith, length-set_text k v m)

length-limited :
    (m : List (String × String))
    → length m ≤ suc plaintext_limit
    → length (limited m) ≤ plaintext_limit
length-limited [] h = ground arith
length-limited (x ∷ m) h = ground arith

-- A set that makes the map longer appends, so the oldest entry is another one.
lookup_text-limited :
    (k v : String) (m : List (String × String))
    → length m ≤ plaintext_limit
    → lookup_text k (limited (set_text k v m)) ≡ some v
lookup_text-limited k v [] h = rw (eq_refl k) refl
lookup_text-limited k v ((j, w) ∷ m) h = elim (Bool-cases (j === k)) [
  | inl e ↦
      let small : ltb plaintext_limit (suc (length m)) ≡ false = ground (arith, h) in
      rw (e, small) (rw e refl)
  | inr e ↦ rw e (elim (Bool-cases (ltb plaintext_limit (suc (length (set_text k v m))))) [
    | inl f ↦ rw f (lookup_text-set_text k v m)
    | inr f ↦ rw f (rw e (lookup_text-set_text k v m))
  ])
]

-- At most fifty texts are kept.
abbrev pub IsLimited : Chat → Type 0
IsLimited s = length s.sent_plaintexts ≤ plaintext_limit

cache_at-IsLimited :
    (o : Option String) (text : String) (s : Chat) → IsLimited s → IsLimited (cache_at o text s)
cache_at-IsLimited none text s h = h
cache_at-IsLimited (some k) text s h = elim (Bool-cases (truthy text)) [
  | inl e ↦ rw e (
      length-limited (set_text k text s.sent_plaintexts)
        (omega (arith, length-set_text k text s.sent_plaintexts)))
  | inr e ↦ rw e h
]

pub cache_sent_plaintext-IsLimited :
    (p : Payload) (text : String) (s : Chat)
    → IsLimited s
    → IsLimited (cache_sent_plaintext p text s)
unfolding cache_sent_plaintext
cache_sent_plaintext-IsLimited p text s h = cache_at-IsLimited (sent_plaintext_cache_key p) text s h

length-delete_text : (k : String) (m : List (String × String)) → length (delete_text k m) ≤ length m
length-delete_text k [] = omega arith
length-delete_text k ((j, w) ∷ m) = ground (arith, length-delete_text k m)

forget_at-IsLimited : (o : Option String) (s : Chat) → IsLimited s → IsLimited (forget_at o s)
forget_at-IsLimited none s h = h
forget_at-IsLimited (some k) s h = omega (arith, h, length-delete_text k s.sent_plaintexts)

pub forget_sent_plaintext-IsLimited :
    (p : Payload) (s : Chat) → IsLimited s → IsLimited (forget_sent_plaintext p s)
unfolding forget_sent_plaintext
forget_sent_plaintext-IsLimited p s h = forget_at-IsLimited (sent_plaintext_cache_key p) s h

-- Of a message with a key and a ciphertext, whose text is not empty, the text that was kept is
-- found again; and if at most fifty texts were kept before, at most fifty are kept after.
cache_sent_plaintext_lem :
    (p : Payload) (text k : String) (s : Chat)
    → sent_plaintext_cache_key p ≡ some k
    → truthy text ≡ true
    → length s.sent_plaintexts ≤ plaintext_limit
    → (sent_plaintext_for_payload p (cache_sent_plaintext p text s) ≡ some text)
      × (length (cache_sent_plaintext p text s).sent_plaintexts ≤ plaintext_limit)
unfolding sent_plaintext_for_payload cache_sent_plaintext
cache_sent_plaintext_lem p text k s e t h =
    rw (e, t)
      (
        lookup_text-limited k text s.sent_plaintexts h,
        length-limited (set_text k text s.sent_plaintexts)
            (omega (arith, length-set_text k text s.sent_plaintexts)),
      )
