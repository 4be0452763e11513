-- ===== src/Api/Sent.antt =====
-- What a request of api.js sends.
use elektrine.Base.{◌≡◌, String, Option, List, [], ◌∷◌, All, All-append, inl, inr}
use elektrine.Base.Effects.{ok, Result-cases}
use elektrine.Nerve.Types.{Settings}
use elektrine.Api.Types.{Env, Fetch}
use elektrine.Api.Address.{normalize_server_url}
use elektrine.Api.Request.{Options, request, authorization_of, fetch_of}

-- A request adds one fetch at most, to an address that the settings give.
pub request-All :
    (env : Env) (P : Fetch → Type 0) (settings : Settings) (path : String) (options : Options)
    (sent : List Fetch)
    → ((server : String) (authorization : Option String)
        → normalize_server_url env settings.server_url ≡ ok server
        → P (fetch_of server path options authorization))
    → All P sent
    → All P (request env settings path options sent).1
unfolding request
request-All env P settings path options sent f p =
    elim (Result-cases (normalize_server_url env settings.server_url)) [
      | inr (e, h) ↦ rw h p
      | inl (server, h) ↦ elim (Result-cases (authorization_of settings options)) [
        | inr (e, k) ↦ rw h (rw k p)
        | inl (authorization, k) ↦ rw h (
            rw k (
              All-append P sent (fetch_of server path options authorization ∷ []) p
                (f server authorization h, tt)))
      ]
    ]
