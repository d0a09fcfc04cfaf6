-- ===== src/Operators.antt =====
-- internal/operators (libs.go, op.go), and the functions of c_lib and rust_lib that it loads.
-- An int64 is its bit pattern, a number below 2 ^ 64. Overflow wraps, as in the built libraries
-- (the C compiler leaves signed overflow undefined; Rust wraps in a release build). The loops of
-- both libraries burn time on a local variable, and their result is dropped.
-- The dynamic loader is a parameter.
pub mod Laws
pub mod Loading
mod Tests
use cdnnow_test_golang.Shared.{
  ℕ, ◌+◌, ◌-◌, ◌%◌, ◌^◌, Bool, true, false, Option, none, some, ◌⊎◌, inl, inr, if◌then◌else◌,
}
use Prim.Native.String.{String}

abbrev pub Int64 : Type 0
Int64 = ℕ

abbrev pub modulus : ℕ
modulus = 2 ^ 64

-- c_lib/calculator.c
unfoldable pub add : Int64 → Int64 → Int64
add a b = (a + b) % modulus

-- rust_lib/src/lib.rs
unfoldable pub sub : Int64 → Int64 → Int64
sub a b = (a + (modulus - b % modulus)) % modulus

-- `operatorFn`, a C function.
abbrev pub OperatorFn : Type 0
OperatorFn = Int64 → Int64 → Int64

pub record Op : Type 0 where
  pub fn : OperatorFn

unfoldable pub apply : Op → Int64 → Int64 → Int64
apply op a b = op.fn a b

pub data LoadError : Type 0 where
  dl_error symbol_not_found : String → LoadError

-- `operators`: whether `load` has run, and what it left.
pub record Operators : Type 0 where
  pub loaded : Bool
  pub sticky_err : Option LoadError
  pub add_fn : Option OperatorFn
  pub sub_fn : Option OperatorFn

-- `var ops operators`
unfoldable pub unloaded : Operators
unloaded = record { loaded = false; sticky_err = none; add_fn = none; sub_fn = none }

-- What the dynamic loader answers: a handle or the text of `dlerror`, a symbol or, if `dlerror`
-- has one, a text.
pub record Loader : Type 1 where
  pub Handle : Type 0
  pub dlopen : String → Handle ⊎ String
  pub dlsym : Handle → String → OperatorFn ⊎ Option String

module _ (l : Loader) where
  unfoldable pub load_lib : String → l.Handle ⊎ LoadError
  load_lib path = elim (l.dlopen path) [ inl handle ↦ inl handle | inr text ↦ inr (dl_error text) ]

  unfoldable pub get_symbol : l.Handle → String → OperatorFn ⊎ LoadError
  get_symbol handle name = elim (l.dlsym handle name) [
    | inl sym ↦ inl sym
    | inr (some text) ↦ inr (dl_error text)
    | inr none ↦ inr (symbol_not_found name)
  ]

  -- `loadLib`, and `getSymbol` in what it returned.
  unfoldable pub load_symbol : String → String → OperatorFn ⊎ LoadError
  unfolding load_lib get_symbol
  load_symbol path name = elim (load_lib path) [
    | inl handle ↦ get_symbol handle name
    | inr err ↦ inr err
  ]

  -- The function that `loadLibs` runs once.
  unfoldable pub load_once : Operators → String → String → Operators
  unfolding load_symbol
  load_once c c_lib rust_lib = elim (load_symbol c_lib "add") [
    | inr err ↦ record c { loaded = true; sticky_err = some err }
    | inl f ↦ elim (load_symbol rust_lib "sub") [
      | inr err ↦ record c { loaded = true; sticky_err = some err }
      | inl g ↦ record c { loaded = true; add_fn = some f; sub_fn = some g }
    ]
  ]

  -- The new state, and the error that is returned.
  unfoldable pub load_libs : Operators → String → String → Operators × Option LoadError
  load_libs c c_lib rust_lib =
      let d = if c.loaded then c else load_once c c_lib rust_lib in (d, d.sticky_err)

-- `none` is the panic "libraries not loaded".
unfoldable pub must_loaded : Option OperatorFn → Option Op
must_loaded none = none
must_loaded (some f) = some (record { fn = f })

unfoldable pub add_op : Operators → Option Op
unfolding must_loaded
add_op c = must_loaded c.add_fn

unfoldable pub sub_op : Operators → Option Op
unfolding must_loaded
sub_op c = must_loaded c.sub_fn
