-- ===== src/Operators/Loading.antt =====
-- Loading happens once, and its outcome sticks.
use cdnnow_test_golang.Shared.{◌≡◌, refl, none, some, ◌⊎◌, inl, inr, arith}
use Prim.Native.String.{String}
use cdnnow_test_golang.Operators.{
  OperatorFn, LoadError, Loader, Op, Operators, unloaded, load_libs, load_once, load_symbol, add_op,
  sub_op,
}

module _ (l : Loader) where
  -- A second call, with whatever paths, changes nothing and returns the error of the first.
  pub load_libs_once :
      (c : Operators) (c_lib rust_lib c_lib' rust_lib' : String)
      → let (d, err) = load_libs l c c_lib rust_lib in load_libs l d c_lib' rust_lib' ≡ (d, err)
  unfolding load_libs load_once
  load_libs_once c c_lib rust_lib c_lib' rust_lib' = ground arith

  -- The first call either returns no error, and both operators are there, or returns an error, and
  -- then asking for either operator panics.
  pub load_libs_first :
      (c_lib rust_lib : String)
      → let (d, err) = load_libs l unloaded c_lib rust_lib in
        ((err ≡ none) × ((f : Op) × (add_op d ≡ some f)) × ((g : Op) × (sub_op d ≡ some g)))
        ⊎ (((e : LoadError) × (err ≡ some e)) × (add_op d ≡ none) × (sub_op d ≡ none))
  unfolding load_libs load_once unloaded add_op sub_op
  load_libs_first c_lib rust_lib =
      by_outcome (load_symbol l c_lib "add") (load_symbol l rust_lib "sub") refl refl
    where
      by_outcome :
          (a b : OperatorFn ⊎ LoadError)
          → load_symbol l c_lib "add" ≡ a
          → load_symbol l rust_lib "sub" ≡ b
          → let (d, err) = load_libs l unloaded c_lib rust_lib in
            ((err ≡ none) × ((f : Op) × (add_op d ≡ some f)) × ((g : Op) × (sub_op d ≡ some g)))
            ⊎ (((e : LoadError) × (err ≡ some e)) × (add_op d ≡ none) × (sub_op d ≡ none))
      by_outcome (inr e) b p q = rw (p, load_once) (inr ((e, refl), refl, refl))
      by_outcome (inl f) (inr e) p q = rw (p, q, load_once) (inr ((e, refl), refl, refl))
      by_outcome (inl f) (inl g) p q =
          rw (p, q, load_once) (inl (refl, (record { fn = f }, refl), (record { fn = g }, refl)))
