-- ===== src/Text.antt =====
-- The standard library's text functions that the backend calls: `os.path.join`, `str(uuid)`,
-- `uuid.hex`, `str(int)`, and Python's truth value of an optional text.
use Prim.Native.Char.{code}
use Prim.Native.String.{String, ◌++◌, slice}
use knpodly.Base.{
  ℕ, zero, suc, ◌+◌, ◌/◌, ◌%◌, ◌^◌, ℤ, pos, negsuc, Bool, true, false, Option, none, some, ltb,
  ◌==◌, if◌then◌else◌, str_eq, List, [], ◌∷◌,
}
use knpodly.Models.{Uuid}

-- `if value:` on a `str | None`; the texts that count as true are kept
unfoldable pub given : Option String → Option String
given none = none
given (some String.[]) = none
given (some (String.◌∷◌ c s)) = some (String.◌∷◌ c s)

ends_with_slash : String → Bool
ends_with_slash String.[] = false
ends_with_slash (String.◌∷◌ c String.[]) = code c == 47
ends_with_slash (String.◌∷◌ c (String.◌∷◌ d s)) = ends_with_slash (String.◌∷◌ d s)

is_absolute : String → Bool
is_absolute String.[] = false
is_absolute (String.◌∷◌ c s) = code c == 47

is_empty : String → Bool
is_empty String.[] = true
is_empty (String.◌∷◌ c s) = false

-- `os.path.join(a, b)` on POSIX
unfoldable pub path_join : String → String → String
unfolding ends_with_slash is_absolute is_empty
path_join a b =
    if is_absolute b
    then b
    else if is_empty a
    then b
    else if ends_with_slash a
    then a ++ b
    else a ++ "/" ++ b

digit : ℕ → String
digit d = slice "0123456789abcdef" d (d + 1)

-- the lowest `k` hexadecimal digits
hex_digits : ℕ → ℕ → String
unfolding digit
hex_digits zero n = ""
hex_digits (suc k) n = hex_digits k (n / 16) ++ digit (n % 16)

-- `str(u)`
unfoldable pub uuid_str : Uuid → String
unfolding hex_digits
uuid_str u =
    hex_digits 8 (u / 16 ^ 24)
    ++ "-"
    ++ hex_digits 4 (u / 16 ^ 20)
    ++ "-"
    ++ hex_digits 4 (u / 16 ^ 16)
    ++ "-"
    ++ hex_digits 4 (u / 16 ^ 12)
    ++ "-"
    ++ hex_digits 12 u

-- `u.hex`
unfoldable pub uuid_hex : Uuid → String
unfolding hex_digits
uuid_hex u = hex_digits 32 u

-- The fuel is the number itself, which has fewer digits than its value plus one.
decimal : ℕ → ℕ → String
unfolding digit
decimal zero n = digit n
decimal (suc f) n =
    let rest = decimal f (n / 10) in if ltb n 10 then digit n else rest ++ digit (n % 10)

-- `str(i)` of an int
unfoldable pub int_str : ℤ → String
unfolding decimal
int_str (pos n) = decimal n n
int_str (negsuc n) = "-" ++ decimal (suc n) (suc n)

-- `s[:-len(suffix)]` of a text that ends with the suffix
unfoldable pub strip_suffix : String → String → Option String
unfolding is_empty
strip_suffix suffix String.[] = if is_empty suffix then some "" else none
strip_suffix suffix (String.◌∷◌ c s) =
    let rest = strip_suffix suffix s in
    if str_eq (String.◌∷◌ c s) suffix
    then some ""
    else elim rest [ none ↦ none | some t ↦ some (String.◌∷◌ c t) ]

-- The order of texts: by the codes of their characters.
unfoldable pub str_leb : String → String → Bool
str_leb String.[] t = true
str_leb (String.◌∷◌ c s) String.[] = false
str_leb (String.◌∷◌ c s) (String.◌∷◌ d t) =
    let rest = str_leb s t in
    if ltb (code c) (code d) then true else if ltb (code d) (code c) then false else rest

unfoldable pub insert_text : String → List String → List String
insert_text s [] = s ∷ []
insert_text s (t ∷ ts) = let rest = insert_text s ts in if str_leb s t then s ∷ t ∷ ts else t ∷ rest

-- `sorted(texts)`
unfoldable pub sorted : List String → List String
unfolding insert_text
sorted [] = []
sorted (s ∷ ss) = insert_text s (sorted ss)
