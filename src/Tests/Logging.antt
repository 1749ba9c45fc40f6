-- ===== src/Tests/Logging.antt =====
-- Log lines as texts, in a world that is the list of the lines.
use finsplitter.Base.{String, ◌+++◌, ◌≡◌, ◌⊎◌, refl, arith, eq_iff, true, some, List, [], ◌∷◌}
use finsplitter.Effects.{ok, ◌>>◌}
use finsplitter.Domain.Context.{Ctx, background}
use finsplitter.Telemetry.Logging.{Slog, Sink, custom, otel, final_handler, handle_all}
use finsplitter.Telemetry.Logging.Reach.{request_id_not_exported}
use finsplitter.Tests.Settings.{config}

-- A handler is the prefix of its lines.
abbrev lines : Slog (List String) String String
lines = record {
  enabled = λ h level. true;
  handle = λ h ctx level r w. (ok tt, (h +++ r) ∷ w);
  with_attrs = λ h attrs. h;
  with_group = λ h name. h;
}

abbrev add_text : String → String → String → String
add_text key value r = r +++ " " +++ key +++ "=" +++ value

abbrev ctx : Ctx
ctx = record background { request_id = some "7" }

abbrev both : List (Sink String String)
both = custom "local: " ∷ otel "otel: " ∷ []

request_id_not_exported_example :
    (h : String) × ((h ≡ "local: ") ⊎ (h ≡ "json: "))
    × (handle_all add_text lines lines both ctx 4 "started" []
        ≡ (lines.handle h ctx 4 "started request_id=7" >> lines.handle "otel: " ctx 4 "started") [])
unfolding final_handler
request_id_not_exported_example =
    request_id_not_exported add_text lines lines "local: " "json: " config "otel: " both ctx "7" 4
      "started" [] refl refl (ground (arith, eq_iff "7" "")) (λ h. refl) refl
