-- ===== src/Telemetry/Options.antt =====
-- pkg/telemetry/options.go. Durations are in nanoseconds.
use finsplitter.Base.{String, ◌==◌, Bool, false, List, [], ◌∷◌, eqb, if◌then◌else◌}
use finsplitter.Base.Int.{ℤ, pos, negsuc}
use finsplitter.Effects.{Result, ok, err, panic}
use finsplitter.Errs.{Error, plain}

pub record Options : Type 0 where
  pub service_name : String
  pub service_version : String
  pub environment : String
  pub exporter_url : String
  pub insecure : Bool
  pub exporter_timeout : ℤ
  pub export_interval : ℤ

-- An option changes the options, or fails.
abbrev pub Setter : Type 0
Setter = Options → Result Error Options

abbrev pub default_service_version : String
default_service_version = "local"

abbrev pub default_environment : String
default_environment = "development"

abbrev pub default_exporter_timeout : ℤ
default_exporter_timeout = pos 10000000000

abbrev pub default_export_interval : ℤ
default_export_interval = pos 60000000000

abbrev pub or_default : ℤ → ℤ → ℤ
or_default (pos n) d = if eqb n 0 then d else pos n
or_default (negsuc n) d = negsuc n

unfoldable pub with_service_name : String → Setter
with_service_name name o =
    if name == ""
    then err (plain "service name cannot be empty")
    else ok (record o { service_name = name })

unfoldable pub with_service_version : String → Setter
with_service_version version o =
    ok (record o { service_version = if version == "" then default_service_version else version })

unfoldable pub with_environment : String → Setter
with_environment env o =
    ok (record o { environment = if env == "" then default_environment else env })

unfoldable pub with_exporter_url : String → Setter
with_exporter_url url o =
    if url == ""
    then err (plain "exporter URL cannot be empty")
    else ok (record o { exporter_url = url })

unfoldable pub with_insecure : Bool → Setter
with_insecure insecure o = ok (record o { insecure = insecure })

unfoldable pub with_exporter_timeout : ℤ → Setter
with_exporter_timeout timeout o =
    ok (record o { exporter_timeout = or_default timeout default_exporter_timeout })

unfoldable pub with_export_interval : ℤ → Setter
with_export_interval interval o =
    ok (record o { export_interval = or_default interval default_export_interval })

-- the loop over the options
unfoldable pub apply_all : List Setter → Setter
apply_all [] o = ok o
apply_all (opt ∷ opts) o = elim (opt o) as (λ _. Result Error Options) [
  | ok o' ↦ apply_all opts o'
  | err e ↦ err e
  | panic p ↦ panic p
]

abbrev pub check_required : Options → Result Error Options
check_required o =
    if o.service_name == ""
    then err (plain "service name is required")
    else if o.exporter_url == ""
    then err (plain "exporter URL is required")
    else ok o

abbrev pub initial_options : Options
initial_options = record {
  service_name = "";
  service_version = default_service_version;
  environment = default_environment;
  exporter_url = "";
  insecure = false;
  exporter_timeout = default_exporter_timeout;
  export_interval = default_export_interval;
}

unfoldable pub new_options : List Setter → Result Error Options
unfolding apply_all
new_options opts = elim (apply_all opts initial_options) as (λ _. Result Error Options) [
  | ok o ↦ check_required o
  | err e ↦ err e
  | panic p ↦ panic p
]
