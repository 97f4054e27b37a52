-- ===== src/Log/Loggers.antt =====
-- lib/log.cpp and lib/include/log.h: loggers, their appenders and their manager. Loggers and
-- appenders are named by their addresses; a formatter is its pattern. What an appender writes is
-- given by its address and its pattern.
pub mod Reach
use apexstorm.Common.{
  ℕ, zero, suc, List, [], ◌∷◌, ◌++◌, Bool, true, false, not, Option, none, some, leb, ◌==◌,
  if◌then◌else◌,
}
use apexstorm.Common.Results.{Result, ok, fault, ◌>>=◌}
use apexstorm.Common.Texts.{same_text}
use apexstorm.Log.{Level, unknown, debug, info, warn, error, fatal, Item, init}

pub record Appender : Type 0 where
  pub level : Level
  pub formatter : Option (List ℕ)
  pub has_formatter : Bool

-- `root` is the logger that is asked where there are no appenders.
pub record Logger : Type 0 where
  pub level : Level
  pub formatter : Option (List ℕ)
  pub appenders : List ℕ
  pub root : Option ℕ

-- `names` is the map of the manager, and `root` its root logger.
pub record Logs : Type 0 where
  pub loggers : ℕ → Logger
  pub appenders : ℕ → Appender
  pub names : List (List ℕ × ℕ)
  pub root : ℕ

abbrev pub put {ℓ} : {A : Type ℓ} → ℕ → A → (ℕ → A) → ℕ → A
put a x store b = if b == a then x else store b

abbrev pub level_value : Level → ℕ
level_value unknown = 0
level_value debug = 1
level_value info = 2
level_value warn = 3
level_value error = 4
level_value fatal = 5

-- `level >= m_level`
abbrev pub is_enough : (level own : Level) → Bool
is_enough level own = leb (level_value own) (level_value level)

abbrev give_formatter : Option (List ℕ) → Appender → Appender
give_formatter formatter a = record a {
  formatter = elim a.formatter [ none ↦ formatter | some p ↦ some p ];
}

unfoldable pub add_appender : (l a : ℕ) → Logs → Logs
add_appender l a logs =
    let logger = logs.loggers l in
    record logs {
      appenders = put a (give_formatter logger.formatter (logs.appenders a)) logs.appenders;
      loggers = put l (record logger { appenders = logger.appenders ++ (a ∷ []) }) logs.loggers;
    }

abbrev pub erase_first : ℕ → List ℕ → List ℕ
erase_first a [] = []
erase_first a (b ∷ bs) = let rest = erase_first a bs in if b == a then bs else b ∷ rest

unfoldable pub del_appender : (l a : ℕ) → Logs → Logs
del_appender l a logs =
    let logger = logs.loggers l in
    record logs {
      loggers = put l (record logger { appenders = erase_first a logger.appenders }) logs.loggers;
    }

unfoldable pub clear_appenders : (l : ℕ) → Logs → Logs
clear_appenders l logs = record logs {
  loggers = put l (record (logs.loggers l) { appenders = [] }) logs.loggers;
}

-- The loop of `setFormatter` over the appenders.
abbrev pub push_down : Option (List ℕ) → List ℕ → (ℕ → Appender) → ℕ → Appender
push_down formatter [] store = store
push_down formatter (a ∷ rest) store =
    let one = store a in
    push_down formatter rest
      (put a (if one.has_formatter then one else record one { formatter = formatter }) store)

unfoldable pub set_formatter : (l : ℕ) → Option (List ℕ) → Logs → Logs
set_formatter l formatter logs =
    let logger = logs.loggers l in
    record logs {
      loggers = put l (record logger { formatter = formatter }) logs.loggers;
      appenders = push_down formatter logger.appenders logs.appenders;
    }

-- `isError`; a pattern is always parsed.
abbrev pub is_error : Option (List Item × Bool) → Bool
is_error none = true
is_error (some (items, has_error)) = has_error

unfoldable pub set_pattern : (l : ℕ) → List ℕ → Logs → Logs
set_pattern l pattern logs =
    if is_error (init pattern) then logs else set_formatter l (some pattern) logs

-- `LogAppender::setFormatter`
unfoldable pub set_appender_formatter : (a : ℕ) → Option (List ℕ) → Logs → Logs
set_appender_formatter a formatter logs = record logs {
  appenders =
      put a
        (record (logs.appenders a) {
          formatter = formatter;
          has_formatter = elim formatter [ none ↦ false | some p ↦ true ];
        })
        logs.appenders;
}

-- `StdoutLogAppender::log`
abbrev pub appender_log : (level : Level) → (a : ℕ) → Appender → Result (List (ℕ × List ℕ))
appender_log level a appender =
    if is_enough level appender.level
    then elim appender.formatter [ none ↦ fault | some p ↦ ok ((a, p) ∷ []) ]
    else ok []

abbrev pub log_each : (level : Level) → List ℕ → (ℕ → Appender) → Result (List (ℕ × List ℕ))
log_each level [] store = ok []
log_each level (a ∷ rest) store = do
  first ← appender_log level a (store a)
  others ← log_each level rest store
  ok (first ++ others)

-- The appenders of a logger, or its root, which `again` asks.
abbrev pub ask :
    (again : ℕ → Option (Result (List (ℕ × List ℕ))))
    → Level
    → (ℕ → Appender)
    → List ℕ
    → Option ℕ
    → Option (Result (List (ℕ × List ℕ)))
ask again level store [] none = some (ok [])
ask again level store [] (some r) = again r
ask again level store (a ∷ rest) root = some (log_each level (a ∷ rest) store)

-- `Logger::log`, on fuel for the loggers that are asked in turn.
unfoldable pub log : (fuel l : ℕ) → Level → Logs → Option (Result (List (ℕ × List ℕ)))
log zero l level logs = none
log (suc fuel) l level logs =
    let logger = logs.loggers l in
    if is_enough level logger.level
    then ask (λ r. log fuel r level logs) level logs.appenders logger.appenders logger.root
    else some (ok [])

abbrev pub find_logger : List ℕ → List (List ℕ × ℕ) → Option ℕ
find_logger name [] = none
find_logger name ((known, l) ∷ more) =
    let rest = find_logger name more in if same_text known name then some l else rest

-- `getLogger`: a new logger is made at `fresh`. `default` is the pattern that the constructor
-- gives.
unfoldable pub get_logger : (default name : List ℕ) → (fresh : ℕ) → Logs → ℕ × Logs
get_logger default name fresh logs = elim (find_logger name logs.names) [
  | some l ↦ (l, logs)
  | none ↦ (
    fresh,
    record logs {
      loggers =
          put fresh
            (record {
              level = debug;
              formatter = some default;
              appenders = [];
              root = some logs.root;
            })
            logs.loggers;
      names = (name, fresh) ∷ logs.names;
    },
  )
]
