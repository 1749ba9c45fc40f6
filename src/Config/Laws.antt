-- ===== src/Config/Laws.antt =====
-- What a loaded configuration guarantees.
use finsplitter.Base.{String, ◌≡◌, ◌≢◌, Option, none, some, arith, eq_iff, Option-cases, inl, inr}
use finsplitter.Effects.{Result, ok, err, panic}
use finsplitter.Errs.{Error}
use finsplitter.Config.{
  Config, Koanf, missing_names, validate, default_config, set_all, transform, load_env, then_load,
  checked, with_build,
}

-- The four settings without which the service does not start
abbrev pub IsComplete : Config → Type 0
IsComplete c = (c.db.user ≢ "") × (c.db.password ≢ "") × (c.db.host ≢ "") × (c.db.db_name ≢ "")

validate-IsComplete : (c : Config) → validate c ≡ none → IsComplete c
unfolding validate missing_names
validate-IsComplete c h = (
  ground (arith, eq_iff c.db.user ""),
  ground (arith, eq_iff c.db.password ""),
  ground (arith, eq_iff c.db.host ""),
  ground (arith, eq_iff c.db.db_name ""),
)

then_load-eq-some :
    {A B : Type 0} (r : Result Error A) (f : A → Result Error (Option B)) (b : B)
    → then_load r f ≡ ok (some b)
    → (a : A) × (f a ≡ ok (some b))
then_load-eq-some (ok a) f b h = (a, h)
then_load-eq-some (err e) f b h = absurd (ground arith)
then_load-eq-some (panic p) f b h = absurd (ground arith)

checked-eq-some : (x c : Config) → checked x ≡ ok (some c) → (x ≡ c) × (validate c ≡ none)
checked-eq-some x c h = elim (Option-cases (validate x)) [
  | inl fine ↦ (ground arith, ground arith)
  | inr (e, q) ↦ absurd (ground arith)
]

-- A configuration that LoadEnv returns has a database user, password, host and name, and it carries
-- the three build values that it was given, whatever the environment says.
pub load_env-IsComplete :
    {K : Type 0} (koanf : Koanf K) (to_upper : String → String)
    (build_tag build_commit build_time : String) (c : Config)
    → load_env koanf to_upper build_tag build_commit build_time ≡ ok (some c)
    → IsComplete c
      × (c.app.build_tag ≡ build_tag)
      × (c.app.build_commit ≡ build_commit)
      × (c.app.build_time ≡ build_time)
unfolding load_env
load_env-IsComplete koanf to_upper tag commit time c h =
    let build = λ (x : Config). checked (with_build tag commit time x) in
    let (k, g) =
      then_load-eq-some (set_all koanf default_config koanf.empty)
        (λ k.
          then_load (koanf.load_env (transform to_upper) k)
            (λ j. then_load (koanf.unmarshal j) build))
        c h in
    let (j, f) =
      then_load-eq-some (koanf.load_env (transform to_upper) k)
        (λ i. then_load (koanf.unmarshal i) build) c g in
    let (x, e) = then_load-eq-some (koanf.unmarshal j) build c f in
    let (same, valid) = checked-eq-some (with_build tag commit time x) c e in
    (validate-IsComplete c valid, ground arith, ground arith, ground arith)
