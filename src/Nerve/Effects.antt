-- ===== src/Nerve/Effects.antt =====
-- The worker's state, and the monad of its asynchronous functions. A call runs to its end before
-- the next event; what it changed before it throws stays changed.
use elektrine.Base.{ℕ, String, List, ◌∷◌, Option}
pub use elektrine.Base.Effects.{
  Result, ok, err, Does, pure, throw, lift, run_with, ◌>>=◌, ◌>>◌, get, modify,
}
use elektrine.Nerve.Types.{PendingSave, StagedFill}

-- A message that the worker sends, or a page that it opens.
pub data Effect : Type 0 where
  session_changed : (tab : ℕ) (status : String) → Effect
  options_page : Effect
  manager_page : (tab : Option ℕ) → Effect

pub record State : Type 0 where
  -- `Date.now()`
  pub now : ℕ
  -- `sessionPassphrase`, `sessionPassphraseExpiresAt`, and the time at which
  -- `sessionPassphraseTimer` is due
  pub passphrase : String
  pub expires_at : ℕ
  pub timer : Option ℕ
  -- `chrome.storage.local` and `chrome.storage.session`
  pub stored_url : Option String
  pub stored_token : Option String
  pub stored_theme : Option String
  pub stored_passphrase : Option String
  pub staged : List (ℕ × StagedFill)
  -- `pendingLoginSaves`
  pub pending : List (ℕ × PendingSave)
  -- the newest first
  pub effects : List Effect

abbrev pub M {ℓ} : Type ℓ → Type ℓ
M A = Does State A

-- `try { return await m } catch (error) { return handle(error.message) }`
abbrev pub recover {ℓ} : {A : Type ℓ} → Result A × State → (String → M A) → Result A × State
recover (ok a, s) handle = (ok a, s)
recover (err e, s) handle = handle e s

abbrev pub try_catch {ℓ} : {A : Type ℓ} → M A → (String → M A) → M A
try_catch m handle s = recover (m s) handle

abbrev pub emit : Effect → M (Unit {0})
emit e = modify (λ s. record s { effects = e ∷ s.effects })
