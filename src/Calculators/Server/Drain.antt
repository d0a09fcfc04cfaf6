-- ===== src/Calculators/Server/Drain.antt =====
-- After `Stop` has closed the channel the goroutine comes to its end.
use cdnnow_test_golang.Shared.{
  none, ◌+◌, ◌<◌, subst, not, ◌&&◌, Bool, inl, inr, ◌⊎◌, if◌then◌else◌, ℕ, ◌≡◌, refl, true, false,
  Option, some, List, [], ◌∷◌, ◌++◌, arith, length, append_assoc, append-nil,
}
use cdnnow_test_golang.Operators.{Int64}
use cdnnow_test_golang.Calculators.Recorder.{flush}
use cdnnow_test_golang.Calculators.Server.{
  Server, Event, timer_fires, value_read, number_arrives, process, leave, receive, serve, round,
  Runs, next,
}

-- How often a schedule has the case of a number.
unfoldable pub turns : {E : Type 0} → List (Event E) → ℕ
turns [] = 0
turns (number_arrives took choice ∷ es) = turns es + 1
turns (timer_fires ∷ es) = turns es
turns (value_read ∷ es) = turns es

module _ {V S E : Type 0} (compute : V → Int64 → E → V × S) (regrow : ℕ → ℕ) where
  -- A round of the goroutine, if the case is ready; and a schedule of rounds.
  unfoldable pub round_of : Server V S → Option (Server V S × List S) → Server V S
  round_of s none = s
  round_of s (some (t, log)) = t

  unfoldable pub rounds : Server V S → List (Event E) → Server V S
  unfolding round_of
  rounds s [] = s
  rounds s (e ∷ es) = rounds (round_of s (serve compute regrow s e)) es

  round-Runs :
      (e : Event E) {s t : Server V S} {nums : List Int64} {log : List S} (o : _)
      → serve compute regrow t e ≡ o
      → Runs compute regrow s nums log t
      → (new : List S) × Runs compute regrow s nums (log ++ new) (round_of t o)
  unfolding round_of
  round-Runs e {log = log} none p r = ([], rw (append-nil log) r)
  round-Runs e {nums = nums} (some (u, new)) p r =
      (new, rw (← append-nil nums) (next r (round e p)))

  -- Rounds are a run that takes nothing in.
  pub rounds-Runs :
      (es : List (Event E)) {s t : Server V S} {nums : List Int64} {log : List S}
      → Runs compute regrow s nums log t
      → (new : List S) × Runs compute regrow s nums (log ++ new) (rounds t es)
  unfolding rounds
  rounds-Runs [] {log = log} r = ([], rw (append-nil log) r)
  rounds-Runs (e ∷ es) {t = t} {log = log} r =
      let (a, q) = round-Runs e (serve compute regrow t e) refl r in
      let (b, u) = rounds-Runs es q in (a ++ b, rw (← append_assoc log a b) u)

  -- The channel is closed, and the goroutine has ended, or fewer numbers wait than turns are left.
  EndsIn : Server V S → ℕ → Type 0
  EndsIn s n = (s.num_ch.closed ≡ true) × ((s.done ≡ true) ⊎ (length s.num_ch.buf < n))

  number-EndsIn :
      (s : Server V S) (n : ℕ) (took : E) (choice : Option ℕ) (buf : List Int64)
      → s.num_ch.buf ≡ buf
      → s.num_ch.closed ≡ true
      → length buf < n + 1
      → EndsIn (round_of s (receive compute regrow s buf took choice)) n
  unfolding EndsIn round_of receive leave process
  number-EndsIn s n took choice [] b c lt = rw (c, receive) (refl, inl refl)
  number-EndsIn s n took choice (num ∷ rest) b c lt = (c, inr (omega (arith, lt)))

  round-EndsIn :
      (s : Server V S) (e : Event E) (n : ℕ)
      → EndsIn s (turns (e ∷ []) + n)
      → EndsIn (round_of s (serve compute regrow s e)) n
  unfolding EndsIn round_of serve turns
  round-EndsIn s timer_fires n (c, d) = by_ready (not s.done && s.rec.armed)
    where
      by_ready :
          (b : Bool)
          → EndsIn (round_of s (if b then some (record s { rec = flush s.rec }, []) else none)) n
      by_ready true = (c, elim d [ inl k ↦ inl k | inr k ↦ inr (omega (arith, k)) ])
      by_ready false = (c, elim d [ inl k ↦ inl k | inr k ↦ inr (omega (arith, k)) ])
  round-EndsIn s value_read n (c, d) = by_ready s.done
    where
      by_ready : (b : Bool) → EndsIn (round_of s (if b then none else some (s, []))) n
      by_ready true = (c, elim d [ inl k ↦ inl k | inr k ↦ inr (omega (arith, k)) ])
      by_ready false = (c, elim d [ inl k ↦ inl k | inr k ↦ inr (omega (arith, k)) ])
  round-EndsIn s (number_arrives took choice) n (c, d) = by_done s.done refl
    where
      by_done :
          (b : Bool)
          → s.done ≡ b
          → EndsIn
              (round_of s (if b then none else receive compute regrow s s.num_ch.buf took choice))
              n
      by_done true e = (c, inl e)
      by_done false e =
          number-EndsIn s n took choice s.num_ch.buf refl c
            (elim d [ inl l ↦ absurd (cc (e, l)) | inr l ↦ omega (arith, l) ])

  EndsIn-same : (s : Server V S) (m n : ℕ) → m ≡ n → EndsIn s m → EndsIn s n
  EndsIn-same s m n e = subst (EndsIn s) e

  rounds-EndsIn :
      (es : List (Event E)) (s : Server V S) → EndsIn s (turns es) → EndsIn (rounds s es) 0
  unfolding rounds turns
  rounds-EndsIn [] s i = i
  rounds-EndsIn (timer_fires ∷ es) s i =
      rounds-EndsIn es _ (round-EndsIn s timer_fires (turns es) (EndsIn-same s _ _ (omega arith) i))
  rounds-EndsIn (value_read ∷ es) s i =
      rounds-EndsIn es _ (round-EndsIn s value_read (turns es) (EndsIn-same s _ _ (omega arith) i))
  rounds-EndsIn (number_arrives took choice ∷ es) s i =
      rounds-EndsIn es _
        (round-EndsIn s (number_arrives took choice) (turns es) (EndsIn-same s _ _ (omega arith) i))

  -- With a closed channel the goroutine ends by its rounds alone, in whatever order the cases are
  -- served and whatever the clock and the pool answer, once the case of a number has been served
  -- more often than numbers wait.
  pub rounds_end :
      (es : List (Event E)) (s : Server V S)
      → s.num_ch.closed ≡ true
      → length s.num_ch.buf < turns es
      → (rounds s es).done ≡ true
  unfolding EndsIn
  rounds_end es s c lt = elim ((rounds-EndsIn es s (c, inr lt)).1) [
    | inl d ↦ d
    | inr l ↦ absurd (omega (arith, l))
  ]
