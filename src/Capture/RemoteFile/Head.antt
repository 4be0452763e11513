-- ===== src/Capture/RemoteFile/Head.antt =====
-- The size that a server tells before the file is fetched (verifyRemoteFileSize).
use elektrine.Base.{
  ◌≡◌, refl, ap, ◌++◌, Bool, true, false, String, List, [], ◌∷◌, inl, inr, Bool-cases,
}
use elektrine.Base.Effects.{Result, ok, err}
use elektrine.Capture.Types.{Platform, Response}
use elektrine.Capture.Acts.{Act, head_request, require}
use elektrine.Capture.RemoteFile.{check_head, verify_remote_file_size}

module _ (p : Platform) where
  require-acts : (b : Bool) (message : String) (acts : List Act) → (require b message acts).1 ≡ acts
  require-acts true message acts = refl
  require-acts false message acts = refl

  check_head-acts : (r : Result Response) (acts : List Act) → (check_head p r acts).1 ≡ acts
  check_head-acts (err e) acts = refl
  check_head-acts (ok response) acts = elim (Bool-cases response.ok) [
    | inl e ↦ rw e (require-acts _ _ acts)
    | inr e ↦ rw e refl
  ]

  -- The check adds one request, and does not throw.
  pub verify_remote_file_size-passes :
      (url : String) (acts : List Act)
      → verify_remote_file_size p url acts ≡ (ok tt, acts ++ head_request url ∷ [])
  unfolding verify_remote_file_size
  verify_remote_file_size-passes url acts =
      ap (λ left. (ok tt, left)) (check_head-acts (p.head url) (acts ++ head_request url ∷ []))
