-- ===== src/Log.antt =====
-- lib/log.cpp and lib/include/log.h: the levels of the log, and the pattern of a formatter. A text
-- is the list of its character codes.
pub mod Patterns
pub mod Endings
pub mod Levels
pub mod Loggers
mod Tests
use apexstorm.Common.{
  ℕ, zero, suc, ◌+◌, List, [], ◌∷◌, ◌++◌, map, Bool, true, false, not, ◌&&◌, ◌||◌, Option, none,
  some, ltb, leb, ◌==◌, if◌then◌else◌, length,
}
use apexstorm.Common.Texts.{same_text}

-- `LogLevel::Level`, in the order of its values.
pub data Level : Type 0 where
  unknown debug info warn error fatal : Level

unfoldable pub level_to_string : Level → List ℕ
level_to_string unknown = 0x55 ∷ 0x4e ∷ 0x4b ∷ 0x4e ∷ 0x4f ∷ 0x57 ∷ 0x4e ∷ []
level_to_string debug = 0x44 ∷ 0x45 ∷ 0x42 ∷ 0x55 ∷ 0x47 ∷ []
level_to_string info = 0x49 ∷ 0x4e ∷ 0x46 ∷ 0x4f ∷ []
level_to_string warn = 0x57 ∷ 0x41 ∷ 0x52 ∷ 0x4e ∷ []
level_to_string error = 0x45 ∷ 0x52 ∷ 0x52 ∷ 0x4f ∷ 0x52 ∷ []
level_to_string fatal = 0x46 ∷ 0x41 ∷ 0x54 ∷ 0x41 ∷ 0x4c ∷ []

abbrev level_names : List (List ℕ × Level)
level_names =
    (0x64 ∷ 0x65 ∷ 0x62 ∷ 0x75 ∷ 0x67 ∷ [], debug)
    ∷ (0x69 ∷ 0x6e ∷ 0x66 ∷ 0x6f ∷ [], info)
    ∷ (0x77 ∷ 0x61 ∷ 0x72 ∷ 0x6e ∷ [], warn)
    ∷ (0x65 ∷ 0x72 ∷ 0x72 ∷ 0x6f ∷ 0x72 ∷ [], error)
    ∷ (0x66 ∷ 0x61 ∷ 0x74 ∷ 0x61 ∷ 0x6c ∷ [], fatal)
    ∷ (0x44 ∷ 0x45 ∷ 0x42 ∷ 0x55 ∷ 0x47 ∷ [], debug)
    ∷ (0x49 ∷ 0x4e ∷ 0x46 ∷ 0x4f ∷ [], info)
    ∷ (0x57 ∷ 0x41 ∷ 0x52 ∷ 0x4e ∷ [], warn)
    ∷ (0x45 ∷ 0x52 ∷ 0x52 ∷ 0x4f ∷ 0x52 ∷ [], error)
    ∷ (0x46 ∷ 0x41 ∷ 0x54 ∷ 0x41 ∷ 0x4c ∷ [], fatal)
    ∷ []

abbrev find_level : List (List ℕ × Level) → List ℕ → Level
find_level [] v = unknown
find_level ((name, level) ∷ more) v =
    let rest = find_level more v in if same_text v name then level else rest

unfoldable pub level_from_string : List ℕ → Level
level_from_string v = find_level level_names v

-- `std::isalpha` in the C locale.
abbrev pub is_alpha : ℕ → Bool
is_alpha c = (leb 0x41 c && leb c 0x5a) || (leb 0x61 c && leb c 0x7a)

-- What the first loop of `init` collects: a text, or a directive with its name and its format.
pub data Segment : Type 0 where
  literal : List ℕ → Segment
  directive : (name format : List ℕ) → Segment

-- The scan of a directive behind the percent sign.
pub data Scanned : Type 0 where
  plain : (name rest : List ℕ) → Scanned
  formatted : (name format rest : List ℕ) → Scanned
  unclosed : Scanned

-- Letters and closing braces belong to the name.
abbrev pub scan_name : List ℕ → List ℕ × List ℕ
scan_name [] = ([], [])
scan_name (c ∷ cs) =
    let (name, rest) = scan_name cs in
    if is_alpha c || c == 0x7d then (c ∷ name, rest) else ([], c ∷ cs)

abbrev pub scan_format : List ℕ → Option (List ℕ × List ℕ)
scan_format [] = none
scan_format (c ∷ cs) =
    let rest = scan_format cs in
    if c == 0x7d
    then some ([], cs)
    else elim rest [ none ↦ none | some (format, more) ↦ some (c ∷ format, more) ]

abbrev pub scan_rest : (name rest : List ℕ) → Scanned
scan_rest name [] = plain name []
scan_rest name (c ∷ cs) =
    if c == 0x7b
    then elim (scan_format cs) [
      | none ↦ unclosed
      | some (format, rest) ↦ formatted name format rest
    ]
    else plain name (c ∷ cs)

abbrev pub scan : List ℕ → Scanned
scan cs = let (name, rest) = scan_name cs in scan_rest name rest

-- The text that was collected comes in front.
abbrev pub flush : List ℕ → List Segment → List Segment
flush [] segments = segments
flush (c ∷ cs) segments = literal (c ∷ cs) ∷ segments

abbrev pub in_front :
    (List Segment → List Segment)
    → (Bool → Bool)
    → Option (List Segment × Bool)
    → Option (List Segment × Bool)
in_front f g none = none
in_front f g (some (segments, has_error)) = some (f segments, g has_error)

abbrev pattern_error : List ℕ
pattern_error =
    0x3c ∷ 0x3c ∷ 0x70 ∷ 0x61 ∷ 0x74 ∷ 0x74 ∷ 0x65 ∷ 0x72 ∷ 0x6e ∷ 0x5f ∷ 0x65 ∷ 0x72 ∷ 0x72 ∷ 0x6f
    ∷ 0x72 ∷ 0x3e ∷ 0x3e ∷ []

abbrev pub starts_with_percent : List ℕ → Bool
starts_with_percent [] = false
starts_with_percent (c ∷ cs) = c == 0x25

-- What is done behind the scan; `again` is the loop on what is left.
abbrev pub parse_scanned :
    (again : (pattern normal : List ℕ) → Option (List Segment × Bool))
    → (behind normal : List ℕ) → Scanned
    → Option (List Segment × Bool)
parse_scanned again behind normal (plain name rest) =
    in_front (λ s. flush normal (directive name [] ∷ s)) (λ e. e) (again rest [])
parse_scanned again behind normal (formatted name format rest) =
    in_front (λ s. flush normal (directive name format ∷ s)) (λ e. e) (again rest [])
parse_scanned again behind normal unclosed =
    in_front (λ s. literal pattern_error ∷ s) (λ e. true) (again behind normal)

-- The first loop of `init`, on fuel; the second part of the answer is `m_error`.
unfoldable pub parse : (fuel : ℕ) → (pattern normal : List ℕ) → Option (List Segment × Bool)
parse zero cs normal = none
parse (suc fuel) [] normal = some (flush normal [], false)
parse (suc fuel) (c ∷ cs) normal = elim (c == 0x25) [
  | false ↦ parse fuel cs (normal ++ (c ∷ []))
  | true ↦ elim (starts_with_percent cs) [
    | true ↦ parse fuel cs (normal ++ (0x25 ∷ []))
    | false ↦ parse_scanned (parse fuel) cs normal (scan cs)
  ]
]

-- `m_items`: a text, or the class that a letter stands for with its format.
pub data Item : Type 0 where
  string_item : List ℕ → Item
  letter_item : (letter : ℕ) (format : List ℕ) → Item

-- The letters of `s_format_items`.
abbrev pub format_letters : List ℕ
format_letters =
    0x6d ∷ 0x70 ∷ 0x72 ∷ 0x63 ∷ 0x74 ∷ 0x6e ∷ 0x64 ∷ 0x66 ∷ 0x6c ∷ 0x54 ∷ 0x46 ∷ 0x4e ∷ []

abbrev pub is_letter : List ℕ → ℕ → Bool
is_letter [] c = false
is_letter (l ∷ ls) c = let rest = is_letter ls c in l == c || rest

abbrev unknown_item : List ℕ → Item
unknown_item name = string_item (
    (0x3c ∷ 0x3c ∷ 0x65 ∷ 0x72 ∷ 0x72 ∷ 0x6f ∷ 0x72 ∷ 0x5f ∷ 0x66 ∷ 0x6f ∷ 0x72 ∷ 0x6d ∷ 0x61 ∷ 0x74
      ∷ 0x20 ∷ 0x25 ∷ [])
    ++ (name ++ (0x3e ∷ 0x3e ∷ [])))

-- The item, and whether the name is unknown.
abbrev pub item_of : Segment → Item × Bool
item_of (literal s) = (string_item s, false)
item_of (directive [] format) = (unknown_item [], true)
item_of (directive (c ∷ []) format) =
    if is_letter format_letters c
    then (letter_item c format, false)
    else (unknown_item (c ∷ []), true)
item_of (directive (c ∷ d ∷ more) format) = (unknown_item (c ∷ d ∷ more), true)

abbrev pub items_of : List Segment → List Item × Bool
items_of [] = ([], false)
items_of (s ∷ segments) =
    let (item, bad) = item_of s in
    let (items, has_error) = items_of segments in (item ∷ items, bad || has_error)

abbrev pub with_items : Option (List Segment × Bool) → Option (List Item × Bool)
with_items none = none
with_items (some (segments, bad)) =
    let (items, has_error) = items_of segments in some (items, bad || has_error)

-- `LogFormatter::init`.
unfoldable pub init : List ℕ → Option (List Item × Bool)
init pattern = with_items (parse (suc (length pattern)) pattern [])
