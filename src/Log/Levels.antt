-- ===== src/Log/Levels.antt =====
-- lib/log.cpp, `LogLevel`: the texts of the levels.
use apexstorm.Common.{◌≡◌, refl}
use apexstorm.Log.{
  Level, unknown, debug, info, warn, error, fatal, level_to_string, level_from_string,
}

-- Every level is read back from its text.
level_from_string-level_to_string : (l : Level) → level_from_string (level_to_string l) ≡ l
unfolding level_from_string level_to_string
level_from_string-level_to_string unknown = refl
level_from_string-level_to_string debug = refl
level_from_string-level_to_string info = refl
level_from_string-level_to_string warn = refl
level_from_string-level_to_string error = refl
level_from_string-level_to_string fatal = refl
