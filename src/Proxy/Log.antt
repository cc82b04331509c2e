-- ===== src/Proxy/Log.antt =====
-- utils/log.cc: the two loggers.
pub mod Laws
mod Tests
use trustflow.Base.{
  ℕ, Bool, true, false, ◌||◌, Option, none, some, List, [], ◌∷◌, Str, codes, str_eq, if◌then◌else◌,
}
use trustflow.Error.{Result, ok, text, yacl_throw, ◌>>=◌, ◌>>◌}

-- `spdlog::level::level_enum`
pub data Level : Type 0 where
  trace debug info warn err critical off : Level

abbrev pub monitor_log : Str
monitor_log = codes "monitor_log"

abbrev pub app_log : Str
app_log = codes "app_log"

pub record LogOptions : Type 0 where
  pub app_log_path : Str
  pub monitor_log_path : Str
  pub log_level : Str
  pub enable_console_logger : Bool

pub record Logger : Type 0 where
  pub name : Str
  pub path : Str
  pub has_console : Bool
  pub level : Level

-- The registry of spdlog: the loggers, and the name of the default one.
pub record Loggers : Type 0 where
  pub registered : List Logger
  pub default_logger : Option Str

-- The map of levels.
abbrev pub level_map : List (Str × Level)
level_map =
    (codes "trace", Level.trace)
    ∷ (codes "debug", Level.debug)
    ∷ (codes "info", Level.info)
    ∷ (codes "warn", Level.warn)
    ∷ (codes "err", Level.err)
    ∷ (codes "critical", Level.critical)
    ∷ (codes "off", Level.off)
    ∷ []

unfoldable pub level_in : List (Str × Level) → Str → Result Level
level_in [] level = yacl_throw "None exist log Level [{}]" (text level ∷ [])
level_in ((name, l) ∷ levels) level =
    let rest = level_in levels level in if str_eq name level then ok l else rest

unfoldable pub log_level_from_string : Str → Result Level
log_level_from_string level = level_in level_map level

-- `spdlog::get(name) != nullptr`
unfoldable pub has_logger : Str → List Logger → Bool
has_logger name [] = false
has_logger name (l ∷ ls) = str_eq l.name name || has_logger name ls

-- Which logger is registered, and whether it becomes the default.
unfoldable pub register_logger : Logger → Loggers → Result Loggers
register_logger l s =
    let default : Loggers = record {
      registered = l ∷ s.registered;
      default_logger = some l.name;
    } in
    let other : Loggers = record {
      registered = l ∷ s.registered;
      default_logger = s.default_logger;
    } in
    if str_eq l.name app_log
    then ok default
    else if str_eq l.name monitor_log
    then ok other
    else yacl_throw "Unsupported logger type: {}." (text l.name ∷ [])

-- `open_sink` opens the rotating file of a path.
module _ (open_sink : Str → Result (Unit {0})) where
  unfoldable pub make_logger : Str → Str → Str → Bool → Loggers → Result Loggers
  make_logger log_name log_path log_level console s = do
    open_sink log_path
    level ← log_level_from_string log_level
    register_logger
        (record { name = log_name; path = log_path; has_console = console; level = level }) s

  unfoldable pub setup_logger : Str → Str → Str → Bool → Loggers → Result Loggers
  setup_logger log_name log_path log_level console s =
      if has_logger log_name s.registered
      then ok s
      else make_logger log_name log_path log_level console s

  unfoldable pub log_setup : LogOptions → Loggers → Result Loggers
  log_setup opts s = do
    s ← setup_logger app_log opts.app_log_path opts.log_level opts.enable_console_logger s
    setup_logger monitor_log opts.monitor_log_path opts.log_level opts.enable_console_logger s
