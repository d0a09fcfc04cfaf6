-- ===== src/Servers/Printer.antt =====
-- internal/servers/printer.go: the goroutine that prints the totals. What it prints is a list; the
-- values are what `Values` of the calculator returns at that time.
pub mod Printed
use cdnnow_test_golang.Shared.{
  Bool, true, false, Option, none, some, List, [], ◌∷◌, ◌++◌, if◌then◌else◌,
}
use cdnnow_test_golang.Calculators.Dual.{Values}

pub data Label : Type 0 where
  periodic final : Label

pub record TotalsPrinter : Type 0 where
  pub printed : List (Label × Values)
  pub ended : Bool

unfoldable pub new_totals_printer : TotalsPrinter
new_totals_printer = record { printed = []; ended = false }

unfoldable pub print_totals : TotalsPrinter → Label → Values → TotalsPrinter
print_totals p label vals = record p { printed = p.printed ++ (label, vals) ∷ [] }

-- The cases of the `select`.
pub data PrinterEvent : Type 0 where
  ticked stop_asked : PrinterEvent

unfoldable pub on_printer : TotalsPrinter → Values → PrinterEvent → TotalsPrinter
unfolding print_totals
on_printer p vals ticked = print_totals p periodic vals
on_printer p vals stop_asked = record (print_totals p final vals) { ended = true }

-- A round of the loop; `none` if the goroutine has returned.
unfoldable pub serve_printer : TotalsPrinter → Values → PrinterEvent → Option TotalsPrinter
unfolding on_printer
serve_printer p vals e = if p.ended then none else some (on_printer p vals e)
