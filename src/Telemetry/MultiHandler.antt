-- ===== src/Telemetry/MultiHandler.antt =====
-- pkg/telemetry/logging/multihandler.go
pub mod Laws
use finsplitter.Base.{ℕ, String, Bool, true, false, List, [], ◌∷◌, map, any, if◌then◌else◌}
use finsplitter.Effects.{Action, pure, ◌>>◌}
use finsplitter.Errs.{Error}

-- slog.Handler for records `R`: Enabled at a level, and Handle for a record at its level. Logging has
-- the methods WithAttrs and WithGroup.
pub record Handler (W R : Type 0) : Type 0 where
  pub enabled : ℕ → Bool
  pub handle : ℕ → R → Action W Error (Unit {0})

module _ {W R : Type 0} where
  -- MultiHandler.Enabled
  unfoldable pub multi_enabled : List (Handler W R) → ℕ → Bool
  multi_enabled [] level = false
  multi_enabled (handler ∷ handlers) level =
      let rest = multi_enabled handlers level in if handler.enabled level then true else rest

  -- MultiHandler.Handle
  unfoldable pub multi_handle : List (Handler W R) → ℕ → R → Action W Error (Unit {0})
  multi_handle [] level r = pure tt
  multi_handle (handler ∷ handlers) level r =
      let rest = multi_handle handlers level r in
      if handler.enabled level then handler.handle level r >> rest else rest

  abbrev pub multi_handler : List (Handler W R) → Handler W R
  multi_handler handlers = record {
    enabled = multi_enabled handlers;
    handle = multi_handle handlers;
  }
