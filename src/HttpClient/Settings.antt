-- ===== src/HttpClient/Settings.antt =====
-- What the options make of a client: the last one wins, and the transport is instrumented.
use finsplitter.Base.{String, ◌+++◌, ◌≡◌, refl, ap, ◌∙◌, List, [], ◌∷◌}
use finsplitter.Base.Int.{pos}
use finsplitter.HttpClient.{
  set_retry_wait_time, set_retry_max_wait_time, Resty, ClientOption, with_retry_count,
  with_retry_wait_time, with_timeout, with_base_url, with_transport, with_open_telemetry,
  default_retry_count, default_retry_wait_time, default_retry_max_wait_time, default_timeout,
  instrument, apply_option, apply_options, base_client, new, new_logto_client, apply_all,
  logto_options,
}
use finsplitter.HttpClient.Effects.{
  settings, written, IsResty, instrumented, effect, effects, all_effects, defaults,
}

module _ {R T M : Type 0} (resty : Resty R T M) where
  module _ (laws : IsResty resty) where
    settings-instrument :
        (c : R) → settings resty (instrument resty c) ≡ instrumented resty (settings resty c)
    unfolding instrument
    settings-instrument c = laws.writes _ c

    settings-apply_option :
        (opt : ClientOption T) (c : R)
        → settings resty (apply_option resty opt c) ≡ effect resty opt (settings resty c)
    unfolding apply_option
    settings-apply_option (with_retry_count n) c = laws.writes _ c
    settings-apply_option (with_retry_wait_time wait_min wait_max) c =
        laws.writes (set_retry_max_wait_time wait_max) (resty.call (set_retry_wait_time wait_min) c)
        ∙ ap (written resty (set_retry_max_wait_time wait_max))
            (laws.writes (set_retry_wait_time wait_min) c)
    settings-apply_option with_open_telemetry c = settings-instrument c
    settings-apply_option (with_timeout d) c = laws.writes _ c
    settings-apply_option (with_base_url url) c = laws.writes _ c
    settings-apply_option (with_transport t) c = laws.writes _ c
    settings-apply_option _ c = laws.writes _ c

    settings-apply_options :
        (opts : List (ClientOption T)) (c : R)
        → settings resty (apply_options resty opts c) ≡ effects resty opts (settings resty c)
    unfolding apply_options
    settings-apply_options [] c = refl
    settings-apply_options (opt ∷ opts) c =
        settings-apply_options opts (apply_option resty opt c)
        ∙ ap (effects resty opts) (settings-apply_option opt c)

    settings-base_client : settings resty (base_client resty) ≡ defaults resty
    unfolding base_client apply_options apply_option
    settings-base_client =
        settings-apply_options
          (with_retry_count default_retry_count
            ∷ with_retry_wait_time default_retry_wait_time default_retry_max_wait_time
            ∷ with_timeout default_timeout
            ∷ [])
          resty.new

    -- For setters of resty that each write their own setting: New makes a client whose settings are
    -- those of a new resty client with the four documented defaults, then with the effects of the
    -- options, one after the other and each on its own setting, and then with the transport wrapped
    -- for OpenTelemetry, be it one from the options, resty's own or the default one.
    pub settings-new :
        (opts : List (ClientOption T))
        → settings resty (new resty opts) ≡ instrumented resty (effects resty opts (defaults resty))
    unfolding new
    settings-new opts =
        settings-instrument (apply_options resty opts (base_client resty))
        ∙ ap (instrumented resty) (
            settings-apply_options opts (base_client resty)
            ∙ ap (effects resty opts) settings-base_client)

    settings-apply_all :
        (opts : List (List (ClientOption T))) (c : R)
        → settings resty (apply_all resty opts c) ≡ all_effects resty opts (settings resty c)
    unfolding apply_all
    settings-apply_all [] c = refl
    settings-apply_all (opts ∷ more) c =
        settings-apply_all more (apply_options resty opts c)
        ∙ ap (all_effects resty more) (settings-apply_options opts c)

    -- For the setters of resty: the HTTP client of the Logto client has the base URL of the
    -- management API, a timeout of 10 s, 3 retries and waits from 500 ms to 10 s, and its transport
    -- is wrapped for OpenTelemetry; the options that NewClient is given take effect after that, so
    -- that a transport among them stays as it is.
    pub settings-new_logto_client :
        (management_base_url : String) (opts : List (List (ClientOption T)))
        → settings resty (new_logto_client resty management_base_url opts)
          ≡ all_effects resty opts (
              instrumented resty (record (defaults resty) {
                base_url = resty.put_base_url (management_base_url +++ "/api");
                timeout = pos 10000000000;
              }))
    unfolding new_logto_client
    settings-new_logto_client management_base_url opts =
        settings-apply_all opts (new resty (logto_options resty management_base_url))
        ∙ ap (all_effects resty opts) (settings-new (logto_options resty management_base_url))
