-- ===== src/Telemetry/Logger.antt =====
-- pkg/telemetry/logging/logger.go and context.go: the handler of the application's logger. The
-- handlers of the packages slog, prettylog and otelslog are parameters.
use finsplitter.Base.{
  ℕ, String, ◌==◌, ◌≡◌, refl, Bool, Option, none, some, if◌then◌else◌, eq_iff, arith,
}
use finsplitter.Effects.{Result, ok, panic, Action, pure, ◌>>=◌}
use finsplitter.Errs.{Error}
use finsplitter.Domain.Context.{Ctx, get_request_id}
use finsplitter.Telemetry.MultiHandler.{Handler}

abbrev nil_panic : String
nil_panic = "invalid memory address or nil pointer dereference"

-- The switch on cfg.Env.LogFormat: the case "json" leaves the variable nil.
unfoldable pub local_handler :
    {W R : Type 0} → (pretty json : Handler W R) → String → Option (Handler W R)
local_handler pretty json log_format =
    if log_format == "text" then some pretty else if log_format == "json" then none else some json

module _ {W R : Type 0} (add_attr : String → String → R → R) where
  -- CustomHandler.Enabled, where the embedded handler may be nil
  unfoldable pub custom_enabled : Option (Handler W R) → ℕ → Action W Error Bool
  custom_enabled none level w = (panic nil_panic, w)
  custom_enabled (some h) level w = (ok (h.enabled level), w)

  -- CustomHandler.Handle
  unfoldable pub custom_handle : Option (Handler W R) → Ctx → ℕ → R → Action W Error (Unit {0})
  unfolding get_request_id
  custom_handle h ctx level r w =
      let id = get_request_id (some ctx) in
      let r' = if id == "" then r else add_attr "request_id" id r in
      elim h as (λ _. Result Error (Unit {0}) × W) [
        | none ↦ (panic nil_panic, w)
        | some inner ↦ inner.handle level r' w
      ]

  -- A log line: the logger asks whether the level is on, and then has the record handled.
  abbrev pub log_line : Option (Handler W R) → Ctx → ℕ → R → Action W Error (Unit {0})
  log_line h ctx level r =
      custom_enabled h level >>= λ on. if on then custom_handle h ctx level r else pure tt

  -- With the log format "json" every log line panics.
  pub json_log_panics :
      (pretty json : Handler W R) (ctx : Ctx) (level : ℕ) (r : R) (w : W)
      → log_line (local_handler pretty json "json") ctx level r w ≡ (panic nil_panic, w)
  unfolding local_handler custom_enabled
  json_log_panics pretty json ctx level r w = refl

  -- A record that is logged for a request with an ID carries that ID.
  pub custom_handle_request :
      (h : Handler W R) (ctx : Ctx) (id : String) (level : ℕ) (r : R) (w : W)
      → ctx.request_id ≡ some id
      → (id ≡ "" → ⊥)
      → custom_handle (some h) ctx level r w ≡ h.handle level (add_attr "request_id" id r) w
  unfolding custom_handle get_request_id
  custom_handle_request h ctx id level r w known given = ground (arith, eq_iff id "")
