-- ===== src/Files.antt =====
-- The files under the image and the icon directory, by path: what the calls of `os` and of `open`
-- do to them.
use knpodly.Base.{
  ℕ, ◌≡◌, refl, ap, String, Bool, true, false, Option, none, some, List, [], ◌∷◌, ◌++◌, str_eq,
  eq_iff, arith, if◌then◌else◌,
}

abbrev pub Files : Type 0
Files = List (String × List ℕ)

-- The bytes of a file, if `os.path.isfile`.
unfoldable pub file_at : String → Files → Option (List ℕ)
file_at path [] = none
file_at path ((p, bytes) ∷ files) =
    let rest = file_at path files in if str_eq p path then some bytes else rest

abbrev pub is_file : String → Files → Bool
is_file path files = elim (file_at path files) [ none ↦ false | some bytes ↦ true ]

-- `os.remove(path)`
unfoldable pub remove : String → Files → Files
remove path [] = []
remove path ((p, bytes) ∷ files) =
    let rest = remove path files in if str_eq p path then rest else (p, bytes) ∷ rest

-- A file with these bytes takes the place of the one at the path: `open(path, "wb")`, and what is
-- written to it.
unfoldable pub put : String → List ℕ → Files → Files
put path bytes files = (path, bytes) ∷ remove path files

abbrev or_no_bytes : Option (List ℕ) → List ℕ
or_no_bytes none = []
or_no_bytes (some bytes) = bytes

unfoldable pub bytes_at : String → Files → List ℕ
bytes_at path files = or_no_bytes (file_at path files)

bytes_at-found :
    (path : String) (files : Files) (bytes : List ℕ)
    → file_at path files ≡ some bytes
    → bytes_at path files ≡ bytes
unfolding bytes_at
bytes_at-found path files bytes h = ap or_no_bytes h

-- `out.write(chunk)`, for the file that was opened at the path
unfoldable pub append : String → List ℕ → Files → Files
append path chunk files = put path (bytes_at path files ++ chunk) files

-- `os.replace(source, target)`
unfoldable pub replace : String → String → Files → Files
replace source target files = put target (bytes_at source files) (remove source files)

pub file_at-remove :
    (p path : String) (files : Files)
    → file_at p (remove path files) ≡ (if str_eq path p then none else file_at p files)
unfolding file_at remove
file_at-remove p path [] = ground arith
file_at-remove p path ((q, bytes) ∷ files) =
    ground (arith, eq_iff q path, eq_iff q p, eq_iff path p, file_at-remove p path files)

pub file_at-put :
    (p path : String) (bytes : List ℕ) (files : Files)
    → file_at p (put path bytes files) ≡ (if str_eq path p then some bytes else file_at p files)
unfolding file_at put
file_at-put p path bytes files = ground (arith, file_at-remove p path files)

pub file_at-append :
    (p path : String) (old chunk : List ℕ) (files : Files)
    → file_at path files ≡ some old
    → file_at p (append path chunk files)
      ≡ (if str_eq path p then some (old ++ chunk) else file_at p files)
unfolding append
file_at-append p path old chunk files h =
    rw (bytes_at-found path files old h) (file_at-put p path (old ++ chunk) files)

pub file_at-replace :
    (p source target : String) (bytes : List ℕ) (files : Files)
    → file_at source files ≡ some bytes
    → file_at p (replace source target files) ≡ (
        if str_eq target p then some bytes else (if str_eq source p then none else file_at p files))
unfolding replace
file_at-replace p source target bytes files h =
    rw
      (
        bytes_at-found source files bytes h,
        file_at-put p target bytes (remove source files),
        file_at-remove p source files,
      )
      refl
