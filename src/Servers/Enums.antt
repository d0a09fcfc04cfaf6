-- ===== src/Servers/Enums.antt =====
-- internal/servers/calcmode_enumer.go and servertype_enumer.go, which read and write the names of
-- the two settings on the command line. The two files are the same code over another table: the
-- names in one text, their bounds in it, and the map that the names are looked up in. A text is its bytes; that of a
-- value without a name is `none`. `strings.ToLower` is that of ASCII: no other letter becomes one of
-- these names.
pub mod Names
use cdnnow_test_golang.Shared.{
  same_text, ℕ, zero, suc, ◌+◌, ◌-◌, ◌%◌, Bool, true, false, ◌&&◌, Option, none, some, List, [],
  ◌∷◌, map, ◌==◌, leb, if◌then◌else◌, ◌>>=◌, length, get_elem?, slice,
}

pub record Enum : Type 0 where
  pub name : List ℕ
  pub indices : List ℕ
  pub lower_name : List ℕ
  pub values : List ℕ
  pub entries : List (ℕ × ℕ × ℕ)

-- "syncasyncparallel", twice; an entry is the bounds of a slice and its value.
abbrev pub calc_mode : Enum
calc_mode = record {
  name =
      b's' ∷ b'y' ∷ b'n' ∷ b'c' ∷ b'a' ∷ b's' ∷ b'y' ∷ b'n' ∷ b'c' ∷ b'p' ∷ b'a' ∷ b'r' ∷ b'a'
      ∷ b'l' ∷ b'l' ∷ b'e' ∷ b'l' ∷ [];
  indices = 0 ∷ 4 ∷ 9 ∷ 17 ∷ [];
  lower_name =
      b's' ∷ b'y' ∷ b'n' ∷ b'c' ∷ b'a' ∷ b's' ∷ b'y' ∷ b'n' ∷ b'c' ∷ b'p' ∷ b'a' ∷ b'r' ∷ b'a'
      ∷ b'l' ∷ b'l' ∷ b'e' ∷ b'l' ∷ [];
  values = 1 ∷ 2 ∷ 3 ∷ [];
  entries = (0, 4, 1) ∷ (4, 9, 2) ∷ (9, 17, 3) ∷ [];
}

-- "stdhttpfasthttp"
abbrev pub server_type : Enum
server_type = record {
  name =
      b's' ∷ b't' ∷ b'd' ∷ b'h' ∷ b't' ∷ b't' ∷ b'p' ∷ b'f' ∷ b'a' ∷ b's' ∷ b't' ∷ b'h' ∷ b't'
      ∷ b't' ∷ b'p' ∷ [];
  indices = 0 ∷ 7 ∷ 15 ∷ [];
  lower_name =
      b's' ∷ b't' ∷ b'd' ∷ b'h' ∷ b't' ∷ b't' ∷ b'p' ∷ b'f' ∷ b'a' ∷ b's' ∷ b't' ∷ b'h' ∷ b't'
      ∷ b't' ∷ b'p' ∷ [];
  values = 1 ∷ 2 ∷ [];
  entries = (0, 7, 1) ∷ (7, 15, 2) ∷ [];
}

-- `_CalcModeName[_CalcModeIndex[i]:_CalcModeIndex[i+1]]`
unfoldable pub name_at : Enum → ℕ → Option (List ℕ)
name_at e i = do
  lo ← get_elem? e.indices i
  hi ← get_elem? e.indices (i + 1)
  some (slice e.name lo hi)

-- `String`, and `MarshalText`; `i -= 1` wraps a `uint8`.
unfoldable pub enum_string : Enum → ℕ → Option (List ℕ)
unfolding name_at
enum_string e v =
    let i = (v + 255) % 256 in if leb (length e.indices - 1) i then none else name_at e i

-- `IsACalcMode`
unfoldable pub contains : List ℕ → ℕ → Bool
contains [] i = false
contains (v ∷ vs) i = let rest = contains vs i in if i == v then true else rest

-- `_CalcModeNameToValueMap`: for each entry the slice of either text.
unfoldable pub names_of : Enum → List (ℕ × ℕ × ℕ) → List (List ℕ × ℕ)
names_of e [] = []
names_of e ((lo, hi, v) ∷ entries) =
    (slice e.name lo hi, v) ∷ (slice e.lower_name lo hi, v) ∷ names_of e entries

unfoldable pub find : List (List ℕ × ℕ) → List ℕ → Option ℕ
find [] s = none
find ((n, v) ∷ ns) s = let rest = find ns s in if same_text s n then some v else rest

unfoldable pub lower : ℕ → ℕ
lower c = if leb b'A' c && leb c b'Z' then c + 32 else c

unfoldable pub to_lower : List ℕ → List ℕ
unfolding lower
to_lower s = map lower s

-- `CalcModeString`, and `UnmarshalText`.
unfoldable pub parse_in : List (List ℕ × ℕ) → List ℕ → Option ℕ
unfolding find to_lower
parse_in ns s = elim (find ns s) [ some v ↦ some v | none ↦ find ns (to_lower s) ]

unfoldable pub enum_parse : Enum → List ℕ → Option ℕ
unfolding parse_in names_of
enum_parse e s = parse_in (names_of e e.entries) s
