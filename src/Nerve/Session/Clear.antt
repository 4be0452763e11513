-- ===== src/Nerve/Session/Clear.antt =====
-- Forgetting the passphrase (clearRuntimeSessionPassphrase).
use elektrine.Base.{
  ℕ, String, Bool, true, false, Option, none, some, List, [], ◌∷◌, ◌&&◌, ltb, ◌≡◌, refl, inl, inr,
  Bool-cases,
}
use elektrine.Nerve.Types.{Env, ok}
use elektrine.Nerve.Effects.{State}
use elektrine.Nerve.Storage.{clear_session_passphrase}
use elektrine.Nerve.Urls.{allowed_page_url}
use elektrine.Nerve.Session.{
  send_to, broadcast_nerve_session_changed, clear_runtime_session_passphrase,
}

module _ (env : Env) where
  send_to_lem :
      (tabs : List (Option ℕ × String)) (status : String) (s : State)
      → ((send_to env tabs status s).0 ≡ ok tt)
        × ((send_to env tabs status s).1.passphrase ≡ s.passphrase)
  unfolding send_to
  send_to_lem [] status s = (refl, refl)
  send_to_lem ((none, url) ∷ tabs) status s = send_to_lem tabs status s
  send_to_lem ((some id, url) ∷ tabs) status s =
      elim (Bool-cases (ltb 0 id && allowed_page_url env (some url))) [
        | inl e ↦ rw e (send_to_lem tabs status _)
        | inr e ↦ rw e (send_to_lem tabs status s)
      ]

  pub broadcast_lem :
      (status : String) (s : State)
      → ((broadcast_nerve_session_changed env status s).0 ≡ ok tt)
        × ((broadcast_nerve_session_changed env status s).1.passphrase ≡ s.passphrase)
  unfolding broadcast_nerve_session_changed
  broadcast_lem status s = send_to_lem env.page_tabs status s

  pub clear_runtime_lem :
      (b : Bool) (s : State)
      → ((clear_runtime_session_passphrase env b s).0 ≡ ok tt)
        × ((clear_runtime_session_passphrase env b s).1.passphrase ≡ "")
  unfolding clear_runtime_session_passphrase clear_session_passphrase
  clear_runtime_lem true s = broadcast_lem "locked" _
  clear_runtime_lem false s = (refl, refl)
