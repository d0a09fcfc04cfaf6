-- ===== src/Calculators/Sync/Tests.antt =====
-- The theorem of `Sync` at a concrete run.
use cdnnow_test_golang.Shared.{◌≡◌, refl, true, none, some, [], ◌∷◌}
use cdnnow_test_golang.Operators.{Op, apply, add, sub}
use cdnnow_test_golang.Calculators.Dual
use cdnnow_test_golang.Calculators.Dual.{Values, totals}
use cdnnow_test_golang.Calculators.Sync.{
  Sync, to_return, new_sync, acquire, inside, advance, SyncRuns, start, enter, read, work,
}
use cdnnow_test_golang.Calculators.Sync.Consistent.{sync_values}

abbrev lib_add : Op
lib_add = record { fn = add }

abbrev lib_sub : Op
lib_sub = record { fn = sub }

-- The calculation of 5, and a reader that is about to leave the mutex.
reader : (c : Sync) × SyncRuns (new_sync lib_add lib_sub true) (5 ∷ []) c
unfolding new_sync acquire advance inside Dual.add Dual.sub apply
reader =
    (_, work 0 (read (work 0 (work 30 (work 20 (enter 5 start refl) refl) refl) refl) refl) refl)

sync_values_example :
    ((v : Values)
      → reader.0.lock ≡ some (to_return v)
      → v ≡ totals lib_add lib_sub (record { sum = 0; sub = 0 }) (5 ∷ []))
    × (reader.0.lock ≡ none
        → reader.0.state.vals ≡ totals lib_add lib_sub (record { sum = 0; sub = 0 }) (5 ∷ []))
sync_values_example = sync_values lib_add lib_sub true reader.1
