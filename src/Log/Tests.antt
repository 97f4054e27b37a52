-- ===== src/Log/Tests.antt =====
-- The patterns `[%p{}]%d{%Y}` and `%%m`.
use apexstorm.Common.{◌≡◌, refl, List, [], ◌∷◌, map, true, false, some}
use apexstorm.Log.{Item, letter_item, string_item, init, parse}
use apexstorm.Log.Patterns.{print, segment_of, init-print}
use apexstorm.Common.{All, none, ◌==◌, if◌then◌else◌}
use apexstorm.Common.Results.{ok}
use apexstorm.Log.{debug, info, warn, error}
use apexstorm.Log.Loggers.{Logs, log}
use apexstorm.Log.Loggers.Reach.{HasPattern, used, reached, log-reached}

abbrev items : List Item
items =
    string_item (0x5b ∷ [])
    ∷ letter_item 0x70 []
    ∷ string_item (0x5d ∷ [])
    ∷ letter_item 0x64 (0x25 ∷ 0x59 ∷ [])
    ∷ []

init-print_example : init (print (map segment_of items)) ≡ some (items, false)
init-print_example =
    init-print items
      (
        refl,
        refl,
        (refl, tt),
        ((refl, tt), tt, (refl, refl, (refl, tt), ((refl, tt), (refl, (refl, tt)), tt))),
      )
      (tt, (refl, (tt, (refl, tt))))

-- The second percent sign begins a directive.
init_percent_test :
    init (0x25 ∷ 0x25 ∷ 0x6d ∷ [])
    ≡ some (string_item (0x25 ∷ []) ∷ letter_item 0x6d [] ∷ [], false)
unfolding init parse
init_percent_test = refl

-- A text in front of a brace that is not closed comes behind the error.
init_error_test :
    init (0x61 ∷ 0x25 ∷ 0x64 ∷ 0x7b ∷ [])
    ≡ some (
      string_item (
            0x3c ∷ 0x3c ∷ 0x70 ∷ 0x61 ∷ 0x74 ∷ 0x74 ∷ 0x65 ∷ 0x72 ∷ 0x6e ∷ 0x5f ∷ 0x65 ∷ 0x72 ∷ 0x72
            ∷ 0x6f ∷ 0x72 ∷ 0x3e ∷ 0x3e ∷ [])
          ∷ string_item (0x61 ∷ 0x64 ∷ 0x7b ∷ [])
          ∷ [],
      true,
    )
unfolding init parse
init_error_test = refl

-- The root at 0 writes to the appender 1, which has a pattern of its own, and 2; the logger at 3
-- has no appenders.
abbrev logs : Logs
logs = record {
  loggers = λ l.
      if l == 0
      then record { level = debug; formatter = some []; appenders = 1 ∷ 2 ∷ []; root = none }
      else record { level = info; formatter = some []; appenders = []; root = some 0 };
  appenders = λ a.
      if a == 1
      then record { level = debug; formatter = some (0x6d ∷ []); has_formatter = true }
      else record { level = error; formatter = some []; has_formatter = false };
  names = [];
  root = 0;
}

abbrev patterned : All (HasPattern logs.appenders) (used logs 3)
patterned = ((0x6d ∷ [], refl), (([], refl), tt))

log-reached_example :
    log 2 3 warn logs ≡ some (ok (reached warn logs.appenders (used logs 3) patterned))
log-reached_example = log-reached 3 warn logs patterned refl (refl, refl)
