-- ===== src/Accounts/Handlers/Me.antt =====
-- GET /auth/me
use finsplitter.Base.{◌≡◌, ◌↔◌, true, some, arith, Option-cases, inl, inr}
use finsplitter.Effects.{ok, err}
use finsplitter.Effects.Laws.{run_cases, returns, fails, panics}
use finsplitter.Errs.{Error, is, not_found}
use finsplitter.Domain.{UserClaims}
use finsplitter.Domain.Context.{Ctx}
use finsplitter.Ports.{UserRepository}
use finsplitter.Accounts.Handlers.{MeBody, get_me}

module _ {W : Type 0} (users : UserRepository W) (ctx : Ctx) where
  -- The repository's answer that makes a setup necessary.
  abbrev pub IsUnknown : W → W → Type 0
  IsUnknown w w' =
      (claims : UserClaims) × (e : Error) × (ctx.claims ≡ some claims)
      × (users.get_by_logto_user_id ctx claims.sub w ≡ (err e, w'))
      × (is e not_found ≡ true)

  needs_setup-IsUnknown :
      (w w' : W) (body : MeBody)
      → get_me users ctx w ≡ (ok body, w')
      → body.needs_setup ≡ true
      → IsUnknown w w'
  unfolding get_me
  needs_setup-IsUnknown w w' body h n = elim (Option-cases ctx.claims) [
    | inl nobody ↦ absurd (ground arith)
    | inr (claims, c) ↦ elim (run_cases (users.get_by_logto_user_id ctx claims.sub w)) [
      | returns user v e ↦ absurd (ground arith)
      | fails e v q ↦ (claims, e, c, ground arith, ground arith)
      | panics p v q ↦ absurd (ground arith)
    ]
  ]

  needs_setup_of_IsUnknown :
      (w w' : W) (body : MeBody)
      → get_me users ctx w ≡ (ok body, w')
      → IsUnknown w w'
      → body.needs_setup ≡ true
  unfolding get_me
  needs_setup_of_IsUnknown w w' body h (claims, e, c, missing, kind) = ground arith

  -- A success of GET /auth/me says that a setup is needed exactly when the request carries claims
  -- and the repository knows no user for their subject.
  pub needs_setup_iff :
      (w w' : W) (body : MeBody)
      → get_me users ctx w ≡ (ok body, w')
      → (body.needs_setup ≡ true) ↔ IsUnknown w w'
  needs_setup_iff w w' body h =
      (needs_setup-IsUnknown w w' body h, needs_setup_of_IsUnknown w w' body h)
