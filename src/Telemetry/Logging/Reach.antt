-- ===== src/Telemetry/Logging/Reach.antt =====
-- What reaches which handler.
use finsplitter.Base.{
  ℕ, String, ◌==◌, ◌≡◌, ◌≢◌, ◌⊎◌, inl, inr, true, some, List, [], ◌∷◌, refl, arith, Bool-cases,
}
use finsplitter.Effects.{◌>>◌}
use finsplitter.Effects.Laws.{run_cases, returns, fails, panics}
use finsplitter.Domain.Context.{Ctx}
use finsplitter.Config.{Config}
use finsplitter.Telemetry.MultiHandler.{multi_handle}
use finsplitter.Telemetry.Logger.{custom_handle_request}
use finsplitter.Telemetry.Logging.{
  Slog, Sink, custom, otel, default_attrs, handler_at, final_handler, handle_all, sinks,
}

module _ {W R H K : Type 0} (add_attr : String → String → R → R) (slog : Slog W R H)
    (otelslog : Slog W R K) where
  both_handle :
      (h : H) (k : K) (ctx : Ctx) (id : String) (level : ℕ) (r : R) (w : W)
      → ctx.request_id ≡ some id
      → id ≢ ""
      → slog.enabled h level ≡ true
      → otelslog.enabled k level ≡ true
      → handle_all add_attr slog otelslog (custom h ∷ otel k ∷ []) ctx level r w
        ≡ (slog.handle h ctx level (add_attr "request_id" id r) >> otelslog.handle k ctx level r) w
  unfolding handle_all sinks multi_handle
  both_handle h k ctx id level r w known given on on' =
      let first =
        custom_handle_request add_attr (handler_at slog ctx h) ctx id level r w known given in
      elim (run_cases (slog.handle h ctx level (add_attr "request_id" id r) w)) [
        | returns u v q ↦ elim (run_cases (otelslog.handle k ctx level r v)) [
          | returns u' x p ↦ ground (arith, first)
          | fails e x p ↦ ground (arith, first)
          | panics e x p ↦ ground (arith, first)
        ]
        | fails e v q ↦ ground (arith, first)
        | panics p v q ↦ ground (arith, first)
      ]

  -- With a provider for OpenTelemetry and a log format other than "json", a record that is logged
  -- for a request with an ID, at a level that is on, goes to the local handler with the attributes
  -- of the application and that ID; if this one returns no error, the record goes to OpenTelemetry,
  -- but without the ID.
  pub request_id_not_exported :
      (pretty json : H) (cfg : Config) (k : K) (hs : List (Sink H K)) (ctx : Ctx) (id : String)
      (level : ℕ) (r : R) (w : W)
      → final_handler add_attr slog otelslog pretty json cfg (some k) ≡ some hs
      → ctx.request_id ≡ some id
      → id ≢ ""
      → ((h : H) → slog.enabled h level ≡ true)
      → otelslog.enabled k level ≡ true
      → (h : H) × ((h ≡ slog.with_attrs pretty (default_attrs cfg))
          ⊎ (h ≡ slog.with_attrs json (default_attrs cfg)))
        × (handle_all add_attr slog otelslog hs ctx level r w
            ≡ (slog.handle h ctx level (add_attr "request_id" id r)
                  >> otelslog.handle k ctx level r)
                w)
  unfolding final_handler
  request_id_not_exported pretty json cfg k hs ctx id level r w made known given on on' =
      elim (Bool-cases (cfg.env.log_format == "text")) [
        | inl text ↦
            let h = slog.with_attrs pretty (default_attrs cfg) in
            let same : custom h ∷ otel k ∷ [] ≡ hs = ground arith in
            (h, inl refl, rw (← same) (both_handle h k ctx id level r w known given (on h) on'))
        | inr other ↦ elim (Bool-cases (cfg.env.log_format == "json")) [
          | inl as_json ↦ absurd (ground arith)
          | inr default ↦
              let h = slog.with_attrs json (default_attrs cfg) in
              let same : custom h ∷ otel k ∷ [] ≡ hs = ground arith in
              (h, inr refl, rw (← same) (both_handle h k ctx id level r w known given (on h) on'))
        ]
      ]
