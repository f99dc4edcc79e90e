-- ===== src/ImageDiscovery/Metadata.antt =====
-- Reading a decoded metadata.json as image_discovery.py does.
use Prim.Native.Char.{code}
use knpodly.Base.{
  ℤ, pos, String, Bool, true, false, Option, none, some, ◌||◌, str_eq, ◌==◌, if◌then◌else◌,
}
use knpodly.Exec.{Result, ok, err, value_error, type_error, attribute_error, data_error}
use knpodly.Text.{strip_suffix}
use knpodly.Models.{OsStatus, available, coming_soon, disabled, validating}
use knpodly.Python.{
  Json, null, bool, int, float, str, arr, obj, Items, nil, cons, Fields, end, field, Builtins,
}

-- The value of a key of a dictionary.
abbrev pub lookup : String → Fields → Option Json
lookup key end = none
lookup key (field name value rest) =
    let later = lookup key rest in if str_eq name key then some value else later

-- `meta.get(key, default)`
abbrev pub get : String → Json → Fields → Json
get key default meta = elim (lookup key meta) [ none ↦ default | some value ↦ value ]

abbrev is_text : String → Json → Bool
is_text s (str t) = str_eq t s
is_text s _ = false

abbrev has_item : String → Items → Bool
has_item s nil = false
has_item s (cons j rest) = is_text s j || has_item s rest

is_prefix : String → String → Bool
is_prefix String.[] t = true
is_prefix (String.◌∷◌ c s) String.[] = false
is_prefix (String.◌∷◌ c s) (String.◌∷◌ d t) =
    let rest = is_prefix s t in if code c == code d then rest else false

-- `s in t` of two texts
occurs : String → String → Bool
unfolding is_prefix
occurs s String.[] = is_prefix s ""
occurs s (String.◌∷◌ c t) = is_prefix s (String.◌∷◌ c t) || occurs s t

-- What the code finds with `"name" not in meta` and the calls of `meta.get` after it: a value that
-- is no dictionary and has no such item is skipped, one that has has no method `get`, and in a
-- number, `true`, `false` or `null` nothing can be looked for.
unfoldable pub fields_of : Json → Result (Option Fields)
unfolding occurs
fields_of (obj meta) = ok (elim (lookup "name" meta) [ none ↦ none | some value ↦ some meta ])
fields_of (arr items) = if has_item "name" items then err attribute_error else ok none
fields_of (str s) = if occurs "name" s then err attribute_error else ok none
fields_of _ = err type_error

-- `_STATUS_MAP.get(status_raw, OSStatus.validating)`
abbrev pub status_of : String → OsStatus
status_of raw =
    if str_eq raw "available"
    then available
    else if str_eq raw "coming soon"
    then coming_soon
    else if str_eq raw "coming_soon"
    then coming_soon
    else if str_eq raw "disabled"
    then disabled
    else validating

-- ValueError, or OverflowError for an infinite number, which are not told apart; without the message
abbrev or_value_error : Option ℤ → Result ℤ
or_value_error none = err (value_error "")
or_value_error (some n) = ok n

module _ (builtins : Builtins) where
  -- `str(value)`
  abbrev pub to_text : Json → String
  to_text (str s) = s
  to_text value = builtins.str_of value

  ram_of_text : ℤ → String → Result ℤ
  ram_of_text default v = elim (strip_suffix "GB" v) [
    | some number ↦ or_value_error (builtins.int_of_float number 1024)
    | none ↦ elim (strip_suffix "MB" v) [
      | some number ↦ or_value_error (builtins.int_of_float number 1)
      | none ↦ ok default
    ]
  ]

  -- `_parse_ram_to_mb(value)`, with the setting for the default; `true` and `false` are ints
  unfoldable pub parse_ram_to_mb : ℤ → Json → Result ℤ
  unfolding ram_of_text
  parse_ram_to_mb default (int n) = ok n
  parse_ram_to_mb default (bool true) = ok (pos 1)
  parse_ram_to_mb default (bool false) = ok (pos 0)
  parse_ram_to_mb default (str s) = ram_of_text default (builtins.upper (builtins.strip s))
  parse_ram_to_mb default _ = ok default

  -- `int(value)`
  unfoldable pub to_int : Json → Result ℤ
  to_int (int n) = ok n
  to_int (bool true) = ok (pos 1)
  to_int (bool false) = ok (pos 0)
  to_int (float s) = or_value_error (builtins.int_of_float s 1)
  to_int (str s) = or_value_error (builtins.int_of_str s)
  to_int _ = err type_error

-- What the driver makes of a value for a text column.
abbrev pub text_column : Json → Result (Option String)
text_column null = ok none
text_column (str s) = ok (some s)
text_column _ = err data_error
