-- ===== src/Python.antt =====
-- Python's own functions that the backend calls and whose tables or algorithms are not modelled:
-- Unicode case and classes, floats, the JSON decoder, SHA-256, and the reading of a UUID.
-- `none` stands for the exception that the function raises.
use Prim.Native.Char.{Char}
use knpodly.Base.{ℕ, ℤ, String, Bool, Option, List}
use knpodly.Models.{Uuid}

-- A value of `json.load`. A float is kept as its text.
mutual
  pub data Json : Type 0 where
    null : Json
    bool : Bool → Json
    int : ℤ → Json
    float : String → Json
    str : String → Json
    arr : Items → Json
    obj : Fields → Json

  pub data Items : Type 0 where
    nil : Items
    cons : Json → Items → Items

  pub data Fields : Type 0 where
    end : Fields
    field : String → Json → Fields → Fields

-- How `json.load` of a file ends: with a value, with JSONDecodeError, or with UnicodeDecodeError.
pub data Loaded : Type 0 where
  loaded : Json → Loaded
  json_decode_error unicode_decode_error : Loaded

pub record Builtins : Type 0 where
  -- `s.lower()`, `s.upper()`, `s.strip()`
  pub lower : String → String
  pub upper : String → String
  pub strip : String → String
  -- `c.isalnum()` of one character
  pub is_alnum : Char → Bool
  -- `int(float(s) * k)`
  pub int_of_float : String → ℕ → Option ℤ
  -- `int(s)` of a text
  pub int_of_str : String → Option ℤ
  -- `str(value)` of a decoded value that is no text
  pub str_of : Json → String
  -- `json.load` of a file with these bytes, read as UTF-8
  pub json_load : List ℕ → Loaded
  -- the hexadecimal SHA-256 of some bytes
  pub sha256_hex : List ℕ → String
  -- `uuid.UUID(s)`
  pub parse_uuid : String → Option Uuid
