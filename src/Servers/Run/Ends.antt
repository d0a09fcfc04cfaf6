-- ===== src/Servers/Run/Ends.antt =====
-- Lists of actions that start some resources, and end with the stops of others.
use cdnnow_test_golang.Shared.{
  ℕ, ◌≡◌, refl, sym, ap, ◌∙◌, Bool, false, ◌||◌, List, [], ◌∷◌, ◌++◌, ◌==◌, if◌then◌else◌,
  append_assoc, append-nil,
}
use cdnnow_test_golang.Servers.Run.{
  Resource, listener, pprof, aggregator, calculator, printer, Act, opens, closes, limits, makes,
  serves, shuts_down, listener_shut,
}

-- The resources that are stopped, and those that are started, in order.
abbrev pub closed : List Act → List Resource
closed [] = []
closed (closes r ∷ acts) = r ∷ closed acts
closed (_ ∷ acts) = closed acts

abbrev pub opened : List Act → List Resource
opened [] = []
opened (opens r ∷ acts) = r ∷ opened acts
opened (_ ∷ acts) = opened acts

abbrev pub index : Resource → ℕ
index listener = 0
index pprof = 1
index aggregator = 2
index calculator = 3
index printer = 4

abbrev pub among : Resource → List Resource → Bool
among r [] = false
among r (s ∷ rs) = (index r == index s) || among r rs

-- The resources of a list that are among others.
abbrev pub keep : List Resource → List Resource → List Resource
keep rs [] = []
keep rs (s ∷ order) = if among s rs then s ∷ keep rs order else keep rs order

-- The calculator first, so that it can hand its last samples over and the printer can print the
-- final values, then the printer, then the aggregator.
abbrev pub shutdown_order : List Resource
shutdown_order = calculator ∷ printer ∷ aggregator ∷ pprof ∷ listener ∷ []

abbrev pub closing : List Resource → List Act
closing [] = []
closing (r ∷ rs) = closes r ∷ closing rs

pub opened-append : (xs ys : List Act) → opened (xs ++ ys) ≡ opened xs ++ opened ys
opened-append [] ys = refl
opened-append (opens r ∷ xs) ys = ap (◌∷◌ r) (opened-append xs ys)
opened-append (closes r ∷ xs) ys = opened-append xs ys
opened-append (limits n ∷ xs) ys = opened-append xs ys
opened-append (makes p ∷ xs) ys = opened-append xs ys
opened-append (serves t a ∷ xs) ys = opened-append xs ys
opened-append (listener_shut ∷ xs) ys = opened-append xs ys
opened-append (shuts_down ∷ xs) ys = opened-append xs ys

pub closed-append : (xs ys : List Act) → closed (xs ++ ys) ≡ closed xs ++ closed ys
closed-append [] ys = refl
closed-append (opens r ∷ xs) ys = closed-append xs ys
closed-append (closes r ∷ xs) ys = ap (◌∷◌ r) (closed-append xs ys)
closed-append (limits n ∷ xs) ys = closed-append xs ys
closed-append (makes p ∷ xs) ys = closed-append xs ys
closed-append (serves t a ∷ xs) ys = closed-append xs ys
closed-append (listener_shut ∷ xs) ys = closed-append xs ys
closed-append (shuts_down ∷ xs) ys = closed-append xs ys

pub closing-append : (rs ss : List Resource) → closing (rs ++ ss) ≡ closing rs ++ closing ss
closing-append [] ss = refl
closing-append (r ∷ rs) ss = ap (◌∷◌ (closes r)) (closing-append rs ss)

-- Actions that start some resources and end with the stops of others.
pub record Ends (os cs : List Resource) (acts : List Act) : Type 0 where
  pub starts : opened acts ≡ os
  pub before : List Act
  pub stops : acts ≡ before ++ closing cs
  pub quiet : closed before ≡ []

pub Ends-first :
    {os cs : List Resource} {acts : List Act} (xs : List Act)
    → closed xs ≡ []
    → Ends os cs acts
    → Ends (opened xs ++ os) cs (xs ++ acts)
Ends-first {cs} {acts} xs q e = record {
  starts = opened-append xs acts ∙ ap (◌++◌ (opened xs)) e.starts;
  before = xs ++ e.before;
  stops = ap (◌++◌ xs) e.stops ∙ sym (append_assoc xs e.before (closing cs));
  quiet = closed-append xs e.before ∙ ap (λ z. z ++ closed e.before) q ∙ e.quiet;
}

pub Ends-deferring :
    {os cs : List Resource} {acts : List Act} (r : Resource)
    → Ends os cs acts
    → Ends os (cs ++ r ∷ []) (acts ++ closes r ∷ [])
Ends-deferring {os} {cs} {acts} r e = record {
  starts = opened-append acts (closes r ∷ []) ∙ append-nil (opened acts) ∙ e.starts;
  before = e.before;
  stops =
      ap (λ z. z ++ closes r ∷ []) e.stops
      ∙ append_assoc e.before (closing cs) (closes r ∷ [])
      ∙ ap (◌++◌ e.before) (sym (closing-append cs (r ∷ [])));
  quiet = e.quiet;
}

pub Ends-none : (acts : List Act) → opened acts ≡ [] → closed acts ≡ [] → Ends [] [] acts
Ends-none acts o c = record { starts = o; before = acts; stops = sym (append-nil acts); quiet = c }
