-- ===== src/Auth/Paths.antt =====
-- internal/gateways/http/v1/auth/middleware.go: which paths need a token, and the token of a request.
pub mod Laws
use finsplitter.Base.{String, ◌==◌, Bool, false, List, [], ◌∷◌, ◌||◌, any, if◌then◌else◌}
use finsplitter.Domain.Context.{Ctx}
use finsplitter.Strings.{has_prefix, trim_prefix}

-- What the middleware reads of an HTTP request; `authorization` is the header of that name, empty
-- if there is none.
pub record Request : Type 0 where
  pub path : String
  pub authorization : String
  pub ctx : Ctx

abbrev pub skip_prefixes : List String
skip_prefixes = "/health/" ∷ "/docs" ∷ "/openapi" ∷ []

abbrev pub skip_exact : List String
skip_exact =
    "/auth/register" ∷ "/auth/device" ∷ "/auth/device/poll" ∷ "/auth/device/refresh"
    ∷ "/auth/device/revoke" ∷ []

abbrev pub optional_exact : List String
optional_exact = "/auth/me" ∷ "/profile/setup" ∷ []

unfoldable pub is_public_path : String → Bool
unfolding has_prefix
is_public_path path = any (has_prefix path) skip_prefixes || any (λ p. path == p) skip_exact

unfoldable pub is_optional_path : String → Bool
is_optional_path path = any (λ p. path == p) optional_exact

unfoldable pub extract_bearer_token : Request → String
unfolding has_prefix trim_prefix
extract_bearer_token r =
    if has_prefix r.authorization "Bearer " then trim_prefix r.authorization "Bearer " else ""
