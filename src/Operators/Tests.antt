-- ===== src/Operators/Tests.antt =====
-- Runs of the operators, and the loading theorems at a loader that finds everything.
use cdnnow_test_golang.Shared.{ℕ, ◌≡◌, refl, ◌-◌, none, some, ◌⊎◌, inl}
use cdnnow_test_golang.Operators.{
  add, sub, modulus, Op, LoadError, Loader, unloaded, load_libs, add_op, sub_op,
}
use cdnnow_test_golang.Operators.Loading.{load_libs_once, load_libs_first}

one_and_two : add 1 2 ≡ 3
unfolding add
one_and_two = refl

one_minus_two : sub 1 2 ≡ modulus - 1
unfolding sub
one_minus_two = refl

abbrev loader : Loader
loader = record { Handle = ℕ; dlopen = λ path. inl 1; dlsym = λ handle name. inl add }

load_libs_once_example :
    load_libs loader (load_libs loader unloaded "c" "rust").0 "other" "path"
    ≡ load_libs loader unloaded "c" "rust"
load_libs_once_example = load_libs_once loader unloaded "c" "rust" "other" "path"

load_libs_first_example :
    let (d, err) = load_libs loader unloaded "c" "rust" in
    ((err ≡ none) × ((f : Op) × (add_op d ≡ some f)) × ((g : Op) × (sub_op d ≡ some g)))
    ⊎ (((e : LoadError) × (err ≡ some e)) × (add_op d ≡ none) × (sub_op d ≡ none))
load_libs_first_example = load_libs_first loader "c" "rust"
