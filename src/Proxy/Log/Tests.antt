-- ===== src/Proxy/Log/Tests.antt =====
-- The set-up of the loggers at concrete options.
use trustflow.Base.{◌≡◌, refl, true, some, none, [], ◌∷◌, Str, codes, str_eq}
use trustflow.Error.{Result, ok}
use trustflow.Proxy.Log.{
  Level, LogOptions, Logger, Loggers, monitor_log, app_log, level_in, log_level_from_string,
  has_logger, register_logger, make_logger, setup_logger, log_setup,
}
use trustflow.Proxy.Log.Laws.{log_setup-log_setup}

abbrev sink : Str → Result (Unit {0})
sink path = ok tt

abbrev options : LogOptions
options = record {
  app_log_path = codes "a.log";
  monitor_log_path = codes "m.log";
  log_level = codes "warn";
  enable_console_logger = true;
}

abbrev nothing : Loggers
nothing = record { registered = []; default_logger = none }

abbrev logger : Str → Str → Logger
logger name path = record { name = name; path = path; has_console = true; level = Level.warn }

abbrev both : Loggers
both = record {
  registered = logger monitor_log (codes "m.log") ∷ logger app_log (codes "a.log") ∷ [];
  default_logger = some app_log;
}

started : log_setup sink options nothing ≡ ok both
unfolding log_setup setup_logger make_logger has_logger register_logger log_level_from_string
    level_in str_eq
started = refl

log_setup-log_setup_example :
    (has_logger app_log both.registered ≡ true)
    × (has_logger monitor_log both.registered ≡ true)
    × (log_setup sink options both ≡ ok both)
log_setup-log_setup_example = log_setup-log_setup sink options options nothing both started
