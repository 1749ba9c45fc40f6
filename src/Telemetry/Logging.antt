-- ===== src/Telemetry/Logging.antt =====
-- pkg/telemetry/logging: the logger that NewContextWithLogger makes of a configuration, and the
-- methods WithAttrs and WithGroup. The handlers of prettylog, slog and otelslog are parameters.
pub mod Reach
use finsplitter.Base.{
  ℕ, String, ◌==◌, ◌||◌, not, Bool, Option, none, some, List, [], ◌∷◌, ◌++◌, map, if◌then◌else◌,
}
use finsplitter.Base.Int.{ℤ}
use finsplitter.Effects.{Action}
use finsplitter.Errs.{Error}
use finsplitter.Domain.Context.{Ctx}
use finsplitter.Config.{Config}
use finsplitter.Telemetry.MultiHandler.{Handler, multi_enabled, multi_handle}
use finsplitter.Telemetry.Logger.{local_handler, custom_handle}

pub data Field : Type 0 where
  string : (key value : String) → Field
  int : (key : String) (value : ℤ) → Field

-- slog.Group
pub record Group : Type 0 where
  pub name : String
  pub fields : List Field

abbrev undefined : String
undefined = "undefined"

abbrev application_attrs : Config → Group
application_attrs cfg = record {
  name = "application";
  fields =
      string "service" cfg.app.name
      ∷ int "port" cfg.app.port
      ∷ string "version" cfg.app.version
      ∷ string "environment" cfg.env.name
      ∷ [];
}

abbrev build_attrs : Config → Group
build_attrs cfg = record {
  name = "build";
  fields =
      string "buildTime" cfg.app.build_time
      ∷ string "buildTag" cfg.app.build_tag
      ∷ string "buildCommit" cfg.app.build_commit
      ∷ [];
}

unfoldable pub default_attrs : Config → List Group
default_attrs cfg =
    if not (cfg.app.build_commit == undefined)
      || not (cfg.app.build_tag == undefined)
      || not (cfg.app.build_time == undefined)
    then application_attrs cfg ∷ build_attrs cfg ∷ []
    else application_attrs cfg ∷ []

-- slog.Handler with handlers `H` for records `R`
pub record Slog (W R H : Type 0) : Type 0 where
  pub enabled : H → ℕ → Bool
  pub handle : H → Ctx → ℕ → R → Action W Error (Unit {0})
  pub with_attrs : H → List Group → H
  pub with_group : H → String → H

abbrev pub handler_at : {W R H : Type 0} → Slog W R H → Ctx → H → Handler W R
handler_at slog ctx h = record { enabled = slog.enabled h; handle = slog.handle h ctx }

-- MultiHandler.WithAttrs and MultiHandler.WithGroup
module _ {W R H : Type 0} (slog : Slog W R H) where
  unfoldable pub multi_with_attrs : List H → List Group → List H
  multi_with_attrs hs attrs = map (λ h. slog.with_attrs h attrs) hs

  unfoldable pub multi_with_group : List H → String → List H
  multi_with_group hs name = map (λ h. slog.with_group h name) hs

-- The handlers in the logger: CustomHandler around a local one, and that of otelslog
pub data Sink (H K : Type 0) : Type 0 where
  custom : H → Sink H K
  otel : K → Sink H K

module _ {W R H K : Type 0} (add_attr : String → String → R → R) (slog : Slog W R H)
    (otelslog : Slog W R K) where
  -- The methods of CustomHandler, and those of the handler of otelslog
  unfoldable pub sinks : Slog W R (Sink H K)
  unfolding custom_handle
  sinks = record {
    enabled = λ sink. elim sink [ custom h ↦ slog.enabled h | otel k ↦ otelslog.enabled k ];
    handle = λ sink. elim sink [
      | custom h ↦ λ ctx. custom_handle add_attr (some (handler_at slog ctx h)) ctx
      | otel k ↦ otelslog.handle k
    ];
    with_attrs = λ sink. elim sink [
      | custom h ↦ λ attrs. custom (slog.with_attrs h attrs)
      | otel k ↦ λ attrs. otel (otelslog.with_attrs k attrs)
    ];
    with_group = λ sink. elim sink [
      | custom h ↦ λ name. custom (slog.with_group h name)
      | otel k ↦ λ name. otel (otelslog.with_group k name)
    ];
  }

  -- The handler that slog.New is given: a MultiHandler if there is a provider. With a MultiHandler
  -- of one handler the calls are the same as with that handler. With the log format "json" there is
  -- nothing in the CustomHandler, and every call panics: that is `none`.
  unfoldable pub final_handler :
      (pretty json : H) → Config → (provider : Option K) → Option (List (Sink H K))
  unfolding default_attrs
  final_handler pretty json cfg provider =
      if cfg.env.log_format == "text"
      then some (with_provider (custom (slog.with_attrs pretty (default_attrs cfg))) provider)
      else if cfg.env.log_format == "json"
      then none
      else some (with_provider (custom (slog.with_attrs json (default_attrs cfg))) provider)
    where
      with_provider : Sink H K → Option K → List (Sink H K)
      with_provider sink none = sink ∷ []
      with_provider sink (some k) = sink ∷ otel k ∷ []

  -- A record that is handled by these handlers
  unfoldable pub handle_all : List (Sink H K) → Ctx → ℕ → R → Action W Error (Unit {0})
  unfolding sinks
  handle_all hs ctx = multi_handle (map (handler_at sinks ctx) hs)
