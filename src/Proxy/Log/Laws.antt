-- ===== src/Proxy/Log/Laws.antt =====
-- After the first set-up both loggers are there, and another one changes nothing.
use trustflow.Base.{◌≡◌, arith, Bool, true, Bool-cases, inl, inr, ◌∷◌, Str, str_eq_refl}
use trustflow.Error.{Result, ok, with_value}
use trustflow.Proxy.Log.{
  LogOptions, Logger, Loggers, monitor_log, app_log, log_level_from_string, has_logger,
  register_logger, make_logger, setup_logger, log_setup,
}

module _ (open_sink : Str → Result (Unit {0})) where
  registered :
      (l : Logger) (s s' : Loggers) → register_logger l s ≡ ok s' → s'.registered ≡ l ∷ s.registered
  unfolding register_logger
  registered l s s' h = ground arith

  -- What was there stays, and the logger is there.
  kept :
      (name path level other : Str) (console : Bool) (s s' : Loggers)
      → setup_logger open_sink name path level console s ≡ ok s'
      → (has_logger name s'.registered ≡ true)
        × (has_logger other s.registered ≡ true → has_logger other s'.registered ≡ true)
  unfolding setup_logger make_logger has_logger
  kept name path level other console s s' h = elim (Bool-cases (has_logger name s.registered)) [
    | inl there ↦ (ground arith, λ e. ground arith)
    | inr missing ↦
        with_value (open_sink path) (λ x e. ground arith) (λ e. ground arith)
          λ u e1.
            with_value (log_level_from_string level) (λ x e. ground arith) (λ e. ground arith)
              λ l e2.
                (let e3 =
                    registered
                      (record { name = name; path = path; has_console = console; level = l }) s s'
                      (ground arith) in
                  (rw (e3, str_eq_refl name), λ e. rw e3 (ground arith)))
  ]

  there :
      (name path level : Str) (console : Bool) (s : Loggers)
      → has_logger name s.registered ≡ true
      → setup_logger open_sink name path level console s ≡ ok s
  unfolding setup_logger
  there name path level console s h = rw h

  -- If `LogSetup` succeeds then both loggers are registered, and to call it once more, with any
  -- options, changes nothing.
  pub log_setup-log_setup :
      (opts again : LogOptions) (s s' : Loggers)
      → log_setup open_sink opts s ≡ ok s'
      → (has_logger app_log s'.registered ≡ true)
        × (has_logger monitor_log s'.registered ≡ true)
        × (log_setup open_sink again s' ≡ ok s')
  unfolding log_setup
  log_setup-log_setup opts again s s' h =
      with_value
        (setup_logger open_sink app_log opts.app_log_path opts.log_level opts.enable_console_logger
          s)
        (λ x e. ground arith) (λ e. ground arith)
        λ t e1.
          (let second : setup_logger open_sink monitor_log opts.monitor_log_path opts.log_level
                  opts.enable_console_logger t
                ≡ ok s' =
              ground arith in
            let app =
              (kept monitor_log opts.monitor_log_path opts.log_level app_log
                  opts.enable_console_logger t s' second).1
                (kept app_log opts.app_log_path opts.log_level app_log opts.enable_console_logger s
                  t e1).0 in
            let monitor =
              (kept monitor_log opts.monitor_log_path opts.log_level monitor_log
                opts.enable_console_logger t s' second).0 in
            (
              app,
              monitor,
              simp (
                there app_log again.app_log_path again.log_level again.enable_console_logger s' app,
                there monitor_log again.monitor_log_path again.log_level again.enable_console_logger
                    s' monitor,
              ),
            ))
