-- ===== src/Servers/Enums/Names.antt =====
-- The names are read back in any case, and nothing else is read.
use cdnnow_test_golang.Shared.{
  same_text, same_text-eq, ℕ, zero, suc, ◌+◌, ◌<◌, ◌≡◌, ◌↔◌, inl, inr, refl, sym, ap, ◌∙◌, true,
  Bool-cases, Option-cases, some, List, [], ◌∷◌, leb, ◌%◌, arith,
}
use mathlib.Core.Option.{some-injective}
use cdnnow_test_golang.Servers.Enums.{
  Enum, calc_mode, server_type, name_at, enum_string, names_of, find, lower, to_lower, parse_in,
  enum_parse,
}

-- A table all of whose names are in lower case.
LowerNames : List (List ℕ × ℕ) → Type 0
LowerNames [] = Unit
LowerNames ((n, v) ∷ ns) = (to_lower n ≡ n) × LowerNames ns

find-lower :
    (ns : List (List ℕ × ℕ)) (s : List ℕ) (v : ℕ)
    → LowerNames ns
    → find ns s ≡ some v
    → to_lower s ≡ s
unfolding find LowerNames
find-lower [] s v l e = cc
find-lower ((n, w) ∷ ns) s v l e = elim (Bool-cases (same_text s n)) [
  | inl b ↦ let same = same_text-eq s n b in rw same l.0
  | inr b ↦ find-lower ns s v l.1 (ground arith)
]

-- Reading a name is looking its lower case up.
parse_in-find :
    (ns : List (List ℕ × ℕ)) (s : List ℕ) → LowerNames ns → parse_in ns s ≡ find ns (to_lower s)
unfolding parse_in
parse_in-find ns s l = elim (Option-cases (find ns s)) [
  | inl n ↦ rw (n, parse_in) refl
  | inr (v, e) ↦ rw (e, parse_in) (sym (ap (find ns) (find-lower ns s v l e) ∙ e))
]

-- A table that has for each value the name that is written for it.
Named : Enum → List (List ℕ × ℕ) → Type 0
Named e [] = Unit
Named e ((n, v) ∷ ns) = (enum_string e v ≡ some n) × Named e ns

find-Named :
    (e : Enum) (ns : List (List ℕ × ℕ)) (t : List ℕ) (v : ℕ)
    → Named e ns
    → find ns t ≡ some v
    → enum_string e v ≡ some t
unfolding find Named
find-Named e [] t v l h = cc
find-Named e ((n, w) ∷ ns) t v l h = elim (Bool-cases (same_text t n)) [
  | inl b ↦
      let same = same_text-eq t n b in
      let wv : w ≡ v = ground arith in ap (enum_string e) (sym wv) ∙ l.0 ∙ ap some (sym same)
  | inr b ↦ find-Named e ns t v l.1 (ground arith)
]

-- A table whose names are in lower case, and those that are written.
record Proper (e : Enum) : Type 0 where
  pub lower_names : LowerNames (names_of e e.entries)
  pub named : Named e (names_of e e.entries)
  pub found :
      (v : ℕ) (t : List ℕ)
      → v < 256
      → enum_string e v ≡ some t
      → find (names_of e e.entries) t ≡ some v

-- The names of a proper table are read in any case, each as its value, and nothing else is read.
Proper-parse :
    (e : Enum)
    → Proper e
    → (s : List ℕ) (v : ℕ) → v < 256
    → (enum_parse e s ≡ some v) ↔ (enum_string e v ≡ some (to_lower s))
unfolding enum_parse
Proper-parse e p s v small =
    let same = parse_in-find (names_of e e.entries) s p.lower_names in
    (
      λ h. find-Named e (names_of e e.entries) (to_lower s) v p.named (sym same ∙ h),
      λ h. same ∙ p.found v (to_lower s) small h,
    )

calc_mode-beyond : (v : ℕ) (t : List ℕ) → 3 < v → v < 256 → enum_string calc_mode v ≡ some t → ⊥
unfolding enum_string
calc_mode-beyond v t big small h =
    let out : leb 3 ((v + 255) % 256) ≡ true = ground arith in cc (h, out)

calc_mode-found :
    (v : ℕ) (t : List ℕ)
    → v < 256
    → enum_string calc_mode v ≡ some t
    → find (names_of calc_mode calc_mode.entries) t ≡ some v
unfolding names_of enum_string name_at find
calc_mode-found zero t small h = cc
calc_mode-found (suc zero) t small h = let same = some-injective _ t h in rw (← same) refl
calc_mode-found (suc (suc zero)) t small h = let same = some-injective _ t h in rw (← same) refl
calc_mode-found (suc (suc (suc zero))) t small h =
    let same = some-injective _ t h in rw (← same) refl
calc_mode-found (suc (suc (suc (suc i)))) t small h =
    absurd (calc_mode-beyond (suc (suc (suc (suc i)))) t (omega arith) small h)

calc_mode-Proper : Proper calc_mode
unfolding LowerNames Named names_of enum_string name_at to_lower lower
calc_mode-Proper = record {
  lower_names = (refl, (refl, (refl, (refl, (refl, (refl, tt))))));
  named = (refl, (refl, (refl, (refl, (refl, (refl, tt))))));
  found = calc_mode-found;
}

server_type-beyond : (v : ℕ) (t : List ℕ) → 2 < v → v < 256 → enum_string server_type v ≡ some t → ⊥
unfolding enum_string
server_type-beyond v t big small h =
    let out : leb 2 ((v + 255) % 256) ≡ true = ground arith in cc (h, out)

server_type-found :
    (v : ℕ) (t : List ℕ)
    → v < 256
    → enum_string server_type v ≡ some t
    → find (names_of server_type server_type.entries) t ≡ some v
unfolding names_of enum_string name_at find
server_type-found zero t small h = cc
server_type-found (suc zero) t small h = let same = some-injective _ t h in rw (← same) refl
server_type-found (suc (suc zero)) t small h = let same = some-injective _ t h in rw (← same) refl
server_type-found (suc (suc (suc i))) t small h =
    absurd (server_type-beyond (suc (suc (suc i))) t (omega arith) small h)

server_type-Proper : Proper server_type
unfolding LowerNames Named names_of enum_string name_at to_lower lower
server_type-Proper = record {
  lower_names = (refl, (refl, (refl, (refl, tt))));
  named = (refl, (refl, (refl, (refl, tt))));
  found = server_type-found;
}

-- On the command line, the names of a calculation mode and of a server type are read in any case,
-- each as the value that is written so, and nothing else is read.
pub settings_read :
    (s : List ℕ) (v : ℕ)
    → v < 256
    → ((enum_parse calc_mode s ≡ some v) ↔ (enum_string calc_mode v ≡ some (to_lower s)))
      × ((enum_parse server_type s ≡ some v) ↔ (enum_string server_type v ≡ some (to_lower s)))
settings_read s v small = (
  Proper-parse calc_mode calc_mode-Proper s v small,
  Proper-parse server_type server_type-Proper s v small,
)
