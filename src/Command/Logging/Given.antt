-- ===== src/Command/Logging/Given.antt =====
-- What the logger is made from before viper has been told of the environment and of the file.
use etcd_snapshot_driver.Common.{
  Str, lit, str_eq, if◌then◌else◌, Option, none, some, List, [], ◌∷◌, value, ◌≡◌, refl,
}
use etcd_snapshot_driver.Host.{
  Host, ZapConfig, Level, debug_level, info_level, warn_level, error_level,
}
use etcd_snapshot_driver.Command.Flags.{Flag, Default, string_flag, flags}
use etcd_snapshot_driver.Command.Logging.{parse_log_level, log_config}

-- The value of the command line, or else the default.
abbrev pub or_default : Option Str → Str → Str
or_default none d = d
or_default (some x) d = x

unfoldable pub default_of : Str → List Flag → Option Default
default_of name [] = none
default_of name (f ∷ fs) = if str_eq f.name name then some f.default else default_of name fs

-- The documented behaviour of a viper that has been bound to flags and told of nothing else: it gives a
-- flag's value from the command line, and else the flag's default.
pub record FlagLaws (H : Host) : Type 0 where
  pub given : H.State → Str → Option Str
  pub bound :
      (fs : List Flag) (s t : H.State) {v : H.Viper} {name d : Str}
      → (H.bind_flags fs s).0 ≡ value v
      → default_of name fs ≡ some (string_flag d)
      → (H.settings v t).get_string name ≡ or_default (given t name) d

-- The levels by their names; any other name stands for the level info.
abbrev levels : List (Str × Level)
levels =
    (lit "debug", debug_level)
    ∷ (lit "info", info_level)
    ∷ (lit "warn", warn_level)
    ∷ (lit "error", error_level)
    ∷ []

abbrev named_in : List (Str × Level) → Str → Level
named_in [] text = info_level
named_in ((name, level) ∷ rest) text = if str_eq text name then level else named_in rest text

-- The settings of the logger, from the command line alone.
abbrev pub given_config : (Str → Option Str) → ZapConfig
given_config given = record {
  is_development = str_eq (or_default (given (lit "log-format")) (lit "json")) (lit "console");
  level = named_in levels (or_default (given (lit "log-level")) (lit "info"));
  output_paths = lit "stdout" ∷ [];
  error_output_paths = lit "stderr" ∷ [];
}

level-named_in : (text : Str) → parse_log_level text ≡ named_in levels text
unfolding parse_log_level
level-named_in text = refl

module _ (H : Host) where
  level_default : default_of (lit "log-level") flags ≡ some (string_flag (lit "info"))
  unfolding default_of flags str_eq lit
  level_default = refl

  format_default : default_of (lit "log-format") flags ≡ some (string_flag (lit "json"))
  unfolding default_of flags str_eq lit
  format_default = refl

  -- The configuration that viper's answers make, where it has been told of nothing but the flags.
  pub log_config-given :
      (L : FlagLaws H) (s t : H.State) {v : H.Viper}
      → (H.bind_flags flags s).0 ≡ value v
      → log_config (H.settings v t) ≡ given_config (L.given t)
  unfolding log_config
  log_config-given L s t {v} made =
      let level : (H.settings v t).get_string (lit "log-level")
          ≡ or_default (L.given t (lit "log-level")) (lit "info") =
        L.bound flags s t made level_default in
      let format : (H.settings v t).get_string (lit "log-format")
          ≡ or_default (L.given t (lit "log-format")) (lit "json") =
        L.bound flags s t made format_default in
      rw (log_config, level, format, level-named_in) refl
