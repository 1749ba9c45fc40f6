-- ===== src/Auth/Paths/Laws.antt =====
-- The token of a request, and the paths of the card brands.
use Prim.Native.Char.{code}
use Prim.Native.String.{[], ◌∷◌}
use finsplitter.Base.{
  String, ◌+++◌, ◌==◌, ◌≡◌, refl, Bool, true, false, eq_iff, arith, if◌then◌else◌, eqb, Bool-cases,
  inl, inr,
}
use finsplitter.Strings.{strip_prefix?, has_prefix}
use finsplitter.Strings.Laws.{has_prefix-append, trim_prefix-append}
use finsplitter.Auth.Paths.{Request, is_public_path, is_optional_path, extract_bearer_token}

-- The header "Bearer " with a token after it gives back that token.
pub extract_bearer_token-append :
    (r : Request) (token : String)
    → r.authorization ≡ "Bearer " +++ token
    → extract_bearer_token r ≡ token
unfolding extract_bearer_token
extract_bearer_token-append r token h =
    rw (h, has_prefix-append "Bearer " token, trim_prefix-append "Bearer " token) refl

-- two texts that differ at some place
clash : String → String → Bool
clash [] q = false
clash (a ∷ p) [] = false
clash (a ∷ p) (b ∷ q) = if eqb (code a) (code b) then clash p q else true

has_prefix-clash :
    (s p q : String) → has_prefix s p ≡ true → clash p q ≡ true → has_prefix s q ≡ false
unfolding has_prefix strip_prefix? clash
has_prefix-clash s [] q h k = absurd (ground arith)
has_prefix-clash s (a ∷ p) [] h k = absurd (ground arith)
has_prefix-clash [] (a ∷ p) (b ∷ q) h k = absurd (ground arith)
has_prefix-clash (c ∷ s) (a ∷ p) (b ∷ q) h k = elim (Bool-cases (eqb (code a) (code b))) [
  | inl same ↦ elim (Bool-cases (eqb (code c) (code a))) [
    | inl first ↦ let rest = has_prefix-clash s p q (ground arith) (ground arith) in ground arith
    | inr other ↦ absurd (ground arith)
  ]
  | inr other ↦ ground arith
]

eq-has_prefix : (s p q : String) → has_prefix s p ≡ true → has_prefix q p ≡ false → (s == q) ≡ false
eq-has_prefix s p q h k = elim (Bool-cases (s == q)) [
  | inl same ↦ absurd (ground (arith, eq_iff s q))
  | inr other ↦ other
]

-- No path that starts with "/card-brands" is public or optional.
pub card_brands_need_token :
    (path : String)
    → has_prefix path "/card-brands" ≡ true
    → (is_public_path path ≡ false) × (is_optional_path path ≡ false)
unfolding is_public_path is_optional_path has_prefix strip_prefix? clash
card_brands_need_token path h =
    let differs = eq-has_prefix path "/card-brands" in
    let other = has_prefix-clash path "/card-brands" in
    (
      rw
          (
            other "/health/" h refl,
            other "/docs" h refl,
            other "/openapi" h refl,
            differs "/auth/register" h refl,
            differs "/auth/device" h refl,
            differs "/auth/device/poll" h refl,
            differs "/auth/device/refresh" h refl,
            differs "/auth/device/revoke" h refl,
          )
          refl,
      rw (differs "/auth/me" h refl, differs "/profile/setup" h refl) refl,
    )
