-- ===== src/Vault/Reload.antt =====
-- What a page that loads finds of the session before it.
use elektrine.Base.{
  ◌≡◌, refl, true, Option, none, some, List, [], ◌∷◌, ℕ, length, ==→eq, String, truthy, arith,
}
use elektrine.Vault.Types.{Env, Storage, missing, throwing, holding, Vault}
use elektrine.Vault.Session.{
  unlock, lock, reload, step, run, clear_stored_mdk, store_mdk, read_stored_mdk, checked,
}

-- If `atob` reads back what `btoa` wrote, and the storage works and accepts the text, which is
-- not empty, then a page that loads after an unlock with 32 bytes is unlocked with those bytes.
reload-unlock :
    (env : Env) (mdk : List ℕ) (item : Option String) (s : Vault)
    → env.atob (env.btoa mdk) ≡ some mdk
    → truthy (env.btoa mdk) ≡ true
    → env.accepts (env.btoa mdk) ≡ true
    → length mdk ≡ 32
    → s.session ≡ holding item
    → (run env (unlock mdk ∷ reload ∷ []) s).mdk ≡ some mdk
unfolding run step store_mdk read_stored_mdk
reload-unlock env mdk item s codec nonempty fits size e = rw (e, fits, nonempty, codec, size) refl

read-clear :
    (env : Env) (session : Storage) → (read_stored_mdk env (clear_stored_mdk session)).0 ≡ none
unfolding read_stored_mdk clear_stored_mdk
read-clear env missing = refl
read-clear env throwing = refl
read-clear env (holding item) = refl

-- A page that loads after a lock is locked, whatever the storage is.
reload-lock : (env : Env) (s : Vault) → (run env (lock ∷ reload ∷ []) s).mdk ≡ none
unfolding run step
reload-lock env s = read-clear env s.session

checked-size :
    (bytes : Option (List ℕ)) (session : Storage) (mdk : List ℕ)
    → (checked bytes session).0 ≡ some mdk
    → length mdk ≡ 32
checked-size none session mdk h = cc
checked-size (some bytes) session mdk h = grind (arith, ==→eq (length bytes) 32)

read-size :
    (env : Env) (session : Storage) (mdk : List ℕ)
    → (read_stored_mdk env session).0 ≡ some mdk
    → length mdk ≡ 32
unfolding read_stored_mdk
read-size env missing mdk h = cc
read-size env throwing mdk h = cc
read-size env (holding none) mdk h = cc
read-size env (holding (some value)) mdk h =
    grind (arith, checked-size (env.atob value) (holding (some value)) mdk)

-- A page that loads has a key of 32 bytes or none.
reload-size :
    (env : Env) (mdk : List ℕ) (s : Vault) → (step env reload s).mdk ≡ some mdk → length mdk ≡ 32
unfolding step
reload-size env mdk s h = read-size env s.session mdk h
