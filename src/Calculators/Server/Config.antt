-- ===== src/Calculators/Server/Config.antt =====
-- What no step changes, and so when each outcome of `Calculate` comes about.
use cdnnow_test_golang.Shared.{
  ℕ, ◌≡◌, refl, ◌∙◌, not, ◌&&◌, Option, some, List, [], ◌∷◌, when_some, unless_some, some_pair,
}
use cdnnow_test_golang.Operators.{Int64}
use cdnnow_test_golang.Calculators.Recorder.Batches.{flush-recording, record_sample-recording}
use cdnnow_test_golang.Calculators.Server.{
  Server, Event, timer_fires, value_read, number_arrives, process, leave, receive, serve, Step,
  send, hand_over, round, close, Runs, start, next,
}
use cdnnow_test_golang.Calculators.Server.Invariant.{calculate-accepted, close_nums-accepted}

abbrev pub SameConfig : {V S : Type 0} → Server V S → Server V S → Type 0
SameConfig s t = (t.num_ch.capacity ≡ s.num_ch.capacity) × (t.ignore_overload ≡ s.ignore_overload)

module _ {V S E : Type 0} (compute : V → Int64 → E → V × S) (regrow : ℕ → ℕ) where
  receive-config :
      (s t : Server V S) (buf : List Int64) (took : E) (choice : Option ℕ) (new : List S)
      → receive compute regrow s buf took choice ≡ some (t, new)
      → SameConfig s t
  unfolding receive process leave
  receive-config s t [] took choice new e =
      let (_, e') = when_some s.num_ch.closed e in let (p, _) = some_pair e' in rw p (refl, refl)
  receive-config s t (num ∷ rest) took choice new e = let (p, _) = some_pair e in rw p (refl, refl)

  serve-config :
      (s t : Server V S) (ev : Event E) (new : List S)
      → serve compute regrow s ev ≡ some (t, new)
      → SameConfig s t
  unfolding serve
  serve-config s t timer_fires new e =
      let (_, e') = when_some (not s.done && s.rec.armed) e in
      let (p, _) = some_pair e' in rw p (refl, refl)
  serve-config s t value_read new e =
      let (_, e') = unless_some s.done e in let (p, _) = some_pair e' in rw p (refl, refl)
  serve-config s t (number_arrives took choice) new e =
      let (_, e') = unless_some s.done e in receive-config s t s.num_ch.buf took choice new e'

  Step-config :
      {s t : Server V S} {more : List Int64} {new : List S}
      → Step compute regrow s more new t
      → SameConfig s t
  unfolding process
  Step-config {s} {t} (send num e) =
      let (_, _, p) = calculate-accepted s t num e in rw p (refl, refl)
  Step-config (hand_over num took choice d c b) = (refl, refl)
  Step-config {s} {t} {new = new} (round ev e) = serve-config s t ev new e
  Step-config {s} {t} (close e) = let (_, p) = close_nums-accepted s t e in rw p (refl, refl)

  pub Runs-config :
      {s t : Server V S} {nums : List Int64} {log : List S}
      → Runs compute regrow s nums log t
      → SameConfig s t
  Runs-config start = (refl, refl)
  Runs-config (next r st) =
      let (a, b) = Runs-config r in let (c, d) = Step-config st in (c ∙ a, d ∙ b)

  receive-recording :
      (s t : Server V S) (buf : List Int64) (took : E) (choice : Option ℕ) (new : List S)
      → receive compute regrow s buf took choice ≡ some (t, new)
      → t.rec.recording ≡ s.rec.recording
  unfolding receive process leave
  receive-recording s t [] took choice new e =
      let (_, e') = when_some s.num_ch.closed e in
      let (p, _) = some_pair e' in rw p (flush-recording s.rec)
  receive-recording s t (num ∷ rest) took choice new e =
      let (p, _) = some_pair e in rw p (record_sample-recording regrow s.rec _ choice)

  Step-recording :
      {s t : Server V S} {more : List Int64} {new : List S}
      → Step compute regrow s more new t
      → t.rec.recording ≡ s.rec.recording
  unfolding process serve
  Step-recording {s} {t} (send num e) = let (_, _, p) = calculate-accepted s t num e in rw p refl
  Step-recording {s} (hand_over num took choice d c b) =
      record_sample-recording regrow s.rec _ choice
  Step-recording {s} {t} (round timer_fires e) =
      let (_, e') = when_some (not s.done && s.rec.armed) e in
      let (p, _) = some_pair e' in rw p (flush-recording s.rec)
  Step-recording {s} {t} (round value_read e) =
      let (_, e') = unless_some s.done e in let (p, _) = some_pair e' in rw p refl
  Step-recording {s} {t} {new = new} (round (number_arrives took choice) e) =
      let (_, e') = unless_some s.done e in receive-recording s t s.num_ch.buf took choice new e'
  Step-recording {s} {t} (close e) = let (_, p) = close_nums-accepted s t e in rw p refl

  pub Runs-recording :
      {s t : Server V S} {nums : List Int64} {log : List S}
      → Runs compute regrow s nums log t
      → t.rec.recording ≡ s.rec.recording
  Runs-recording start = refl
  Runs-recording (next r st) = Step-recording st ∙ Runs-recording r
