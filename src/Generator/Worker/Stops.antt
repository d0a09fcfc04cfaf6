-- ===== src/Generator/Worker/Stops.antt =====
-- How a worker stops when its context ends, and that it leaves no timer running.
use cdnnow_test_golang.Generator.Stat.{Stat}
use cdnnow_test_golang.Generator.Worker.{Reply, record_reply}
use mathlib.Core.Option.{none}
use cdnnow_test_golang.Shared.{
  Bool-cases, ◌≡◌, ◌≢◌, refl, ap, subst, ◌∙◌, ◌⊎◌, inl, inr, Bool, true, false, Option-cases, some,
  List, [], ◌∷◌, ◌++◌, ℤ, arith, if◌then◌else◌,
}
use mathlib.Core.Option.{some-injective}
use cdnnow_test_golang.Generator.Stat.{HistLibrary}
use cdnnow_test_golang.Generator.Worker.{
  Event, num, reply, nums_closed, fired, cancelled, Phase, at_nums, at_request, at_timer, returned,
  Timer, running, idle, Worker, new_worker, is_positive, pause, on_event, run_from, run,
}

-- The timer runs exactly while the worker pauses.
unfoldable pub Armed : Phase → Timer → Type 0
Armed at_timer t = t ≡ running
Armed at_nums t = t ≢ running
Armed at_request t = t ≢ running
Armed returned t = t ≢ running

module _ (h : HistLibrary) where
  pause-Armed :
      (interval : ℤ) (w : Worker h)
      → w.phase ≡ at_nums
      → w.timer ≢ running
      → Armed (pause interval w).phase (pause interval w).timer
  unfolding pause Armed
  pause-Armed interval w p t = by_sign (is_positive interval)
    where
      by_sign :
          (b : Bool)
          → let v : Worker h = if b then record w { timer = running; phase = at_timer } else w in
            Armed v.phase v.timer
      by_sign true = refl
      by_sign false = rw p t

  on_event-Armed :
      (interval : ℤ) (w w' : Worker h) (p : Phase) (e : Event)
      → Armed p w.timer
      → on_event interval w p e ≡ some w'
      → Armed w'.phase w'.timer
  unfolding on_event Armed
  on_event-Armed interval w w' at_nums (num n) a e =
      subst (λ (z : Worker h). Armed z.phase z.timer) (some-injective _ _ e) a
  on_event-Armed interval w w' at_nums (reply x) a e = absurd cc
  on_event-Armed interval w w' at_nums nums_closed a e =
      subst (λ (z : Worker h). Armed z.phase z.timer) (some-injective _ _ e) a
  on_event-Armed interval w w' at_nums fired a e = absurd cc
  on_event-Armed interval w w' at_nums cancelled a e =
      subst (λ (z : Worker h). Armed z.phase z.timer) (some-injective _ _ e) a
  on_event-Armed interval w w' at_request (num n) a e = absurd cc
  on_event-Armed interval w w' at_request (reply x) a e =
      subst (λ (z : Worker h). Armed z.phase z.timer) (some-injective _ _ e)
        (pause-Armed interval _ refl a)
  on_event-Armed interval w w' at_request nums_closed a e = absurd cc
  on_event-Armed interval w w' at_request fired a e = absurd cc
  on_event-Armed interval w w' at_request cancelled a e = absurd cc
  on_event-Armed interval w w' at_timer (num n) a e = absurd cc
  on_event-Armed interval w w' at_timer (reply x) a e = absurd cc
  on_event-Armed interval w w' at_timer nums_closed a e = absurd cc
  on_event-Armed interval w w' at_timer fired a e =
      subst (λ (z : Worker h). Armed z.phase z.timer) (some-injective _ _ e) (λ x. cc)
  on_event-Armed interval w w' at_timer cancelled a e =
      subst (λ (z : Worker h). Armed z.phase z.timer) (some-injective _ _ e) (λ x. cc)
  on_event-Armed interval w w' returned (num n) a e = absurd cc
  on_event-Armed interval w w' returned (reply x) a e = absurd cc
  on_event-Armed interval w w' returned nums_closed a e = absurd cc
  on_event-Armed interval w w' returned fired a e = absurd cc
  on_event-Armed interval w w' returned cancelled a e = absurd cc

  run_from-Armed :
      (interval : ℤ) (es : List Event) (w w' : Worker h)
      → Armed w.phase w.timer
      → run_from interval w es ≡ some w'
      → Armed w'.phase w'.timer
  unfolding run_from
  run_from-Armed interval [] w w' a e =
      subst (λ (z : Worker h). Armed z.phase z.timer) (some-injective _ _ e) a
  run_from-Armed interval (x ∷ es) w w' a e = elim (Option-cases (on_event interval w w.phase x)) [
    | inl n ↦ absurd (ground arith)
    | inr (v, n) ↦
        let rest : run_from interval v es ≡ some w' = ground arith in
        run_from-Armed interval es v w' (on_event-Armed interval w v w.phase x a n) rest
  ]

  run_from-append :
      (interval : ℤ) (es fs : List Event) (w v : Worker h)
      → run_from interval w es ≡ some v
      → run_from interval w (es ++ fs) ≡ run_from interval v fs
  unfolding run_from
  run_from-append interval [] fs w v e = ap (λ z. run_from interval z fs) (some-injective _ _ e)
  run_from-append interval (x ∷ es) fs w v e = elim (Option-cases (on_event interval w w.phase x)) [
    | inl n ↦ absurd (ground arith)
    | inr (u, n) ↦
        let rest : run_from interval u es ≡ some v = ground arith in
        rw (n, run_from) (run_from-append interval es fs u v rest)
  ]

  -- The worker comes to its end by these events, with these statistics, and leaves no timer running.
  abbrev pub EndsBy : ℤ → List Event → List Event → Stat h → Type 0
  EndsBy interval es more s =
      (v : Worker h) × (run h interval (es ++ more) ≡ some v)
      × (v.phase ≡ returned)
      × (v.timer ≢ running)
      × (v.stat ≡ s)

  record_end :
      (interval : ℤ) (es more : List Event) (w v : Worker h)
      → run h interval es ≡ some w
      → run_from interval w more ≡ some v
      → v.phase ≡ returned
      → EndsBy interval es more v.stat
  unfolding run new_worker Armed
  record_end interval es more w v e c r =
      let after : run h interval (es ++ more) ≡ some v =
        run_from-append interval es more (new_worker h) w e ∙ c in
      (
        v,
        after,
        r,
        subst (λ p. Armed p v.timer) r
            (run_from-Armed interval (es ++ more) (new_worker h) v (λ x. cc) after),
        refl,
      )

  -- After the reply the worker is at one of its two `select`s.
  reply_lem :
      (interval : ℤ) (w : Worker h) (x : Reply)
      → w.phase ≡ at_request
      → (v : Worker h) × (run_from interval w (reply x ∷ cancelled ∷ []) ≡ some v)
        × (v.phase ≡ returned)
        × (v.stat ≡ record_reply w.stat x)
  unfolding run_from on_event pause
  reply_lem interval w x e = elim (Bool-cases (is_positive interval)) [
    | inl b ↦ (
      record w { stat = record_reply w.stat x; timer = idle; phase = returned },
      rw (e, b, run_from) refl,
      refl,
      refl,
    )
    | inr b ↦ (
      record w { stat = record_reply w.stat x; phase = returned },
      rw (e, b, run_from) refl,
      refl,
      refl,
    )
  ]

  run_stops_at :
      (interval : ℤ) (es : List Event) (w : Worker h) (p : Phase)
      → run h interval es ≡ some w
      → w.phase ≡ p
      → ((p ≡ returned) × (w.timer ≢ running))
        ⊎ (((p ≡ at_nums) ⊎ (p ≡ at_timer)) × EndsBy interval es (cancelled ∷ []) w.stat)
        ⊎ ((p ≡ at_request)
            × (run h interval (es ++ cancelled ∷ []) ≡ none)
            × ((x : Reply) → EndsBy interval es (reply x ∷ cancelled ∷ []) (record_reply w.stat x)))
  unfolding run run_from on_event new_worker Armed
  run_stops_at interval es w at_nums e q = inr (
      inl (
        inl refl,
        record_end interval es (cancelled ∷ []) w (record w { phase = returned }) e
            (rw (q, run_from) refl) refl,
      ))
  run_stops_at interval es w at_timer e q = inr (
      inl (
        inr refl,
        record_end interval es (cancelled ∷ []) w (record w { timer = idle; phase = returned }) e
            (rw (q, run_from) refl) refl,
      ))
  run_stops_at interval es w at_request e q = inr (
      inr (
        refl,
        run_from-append interval es (cancelled ∷ []) (new_worker h) w e ∙ rw (q, run_from) refl,
        λ x.
            let (v, c, r, s) = reply_lem interval w x q in
            subst (EndsBy interval es (reply x ∷ cancelled ∷ [])) s
              (record_end interval es (reply x ∷ cancelled ∷ []) w v e c r),
      ))
  run_stops_at interval es w returned e q = inl (
    refl,
    subst (λ p. Armed p w.timer) q (run_from-Armed interval es (new_worker h) w (λ x. cc) e),
  )

  -- When the context ends, a worker that waits for a number or pauses returns at once with the
  -- statistics that it has. One that waits for the reply to a request does not return before it, and
  -- after the reply, whatever it is, it returns with the reply recorded. A worker that has returned
  -- has left no timer running.
  pub run_stops :
      (interval : ℤ) (es : List Event) (w : Worker h)
      → run h interval es ≡ some w
      → ((w.phase ≡ returned) × (w.timer ≢ running))
        ⊎ (((w.phase ≡ at_nums) ⊎ (w.phase ≡ at_timer))
            × EndsBy interval es (cancelled ∷ []) w.stat)
        ⊎ ((w.phase ≡ at_request)
            × (run h interval (es ++ cancelled ∷ []) ≡ none)
            × ((x : Reply) → EndsBy interval es (reply x ∷ cancelled ∷ []) (record_reply w.stat x)))
  run_stops interval es w e = run_stops_at interval es w w.phase e refl
