-- ===== src/Calculators/Server/Invariant.antt =====
-- What holds of the goroutine and its channel in every interleaving.
use cdnnow_test_golang.Shared.{
  ℕ, ◌≤◌, ◌<◌, ◌≡◌, refl, sym, ap, ◌∙◌, ◌⊎◌, Bool, true, false, not, ◌&&◌, Option, some, List, [],
  ◌∷◌, ◌++◌, arith, length, length-append, append_assoc, append-nil, some_pair, when_some,
  unless_some,
}
use mathlib.Core.List.{foldl}
use cdnnow_test_golang.Operators.{Int64}
use cdnnow_test_golang.Calculators.Recorder.{flush}
use cdnnow_test_golang.Calculators.Recorder.Batches.{
  Holds, flush_lem, flush-recording, record_sample-recording, record_sample-Holds, samples_of,
}
use cdnnow_test_golang.Calculators.Server.{
  Server, accepted, overloaded, blocked, panicked, with_buf, calculate, close_nums, Event,
  timer_fires, value_read, number_arrives, process, receive, serve, Step, send, hand_over, round,
  close, Runs, start, next,
}

module _ {V S : Type 0} where
  -- Exactly when a call of `Calculate` has each of its outcomes, and what it changes.
  pub calculate_outcome :
      (s : Server V S) (num : Int64)
      → ((s.num_ch.closed ≡ true) × (calculate s num ≡ panicked))
        ⊎ ((s.num_ch.closed ≡ false)
            × (length s.num_ch.buf < s.num_ch.capacity)
            × (calculate s num ≡ accepted (with_buf s (s.num_ch.buf ++ num ∷ []))))
        ⊎ ((s.num_ch.closed ≡ false)
            × (s.num_ch.capacity ≤ length s.num_ch.buf)
            × (s.ignore_overload ≡ true)
            × (calculate s num ≡ blocked))
        ⊎ ((s.num_ch.closed ≡ false)
            × (s.num_ch.capacity ≤ length s.num_ch.buf)
            × (s.ignore_overload ≡ false)
            × (calculate s num ≡ overloaded))
  unfolding calculate
  calculate_outcome s num = ground arith

  pub calculate-accepted :
      (s t : Server V S) (num : Int64)
      → calculate s num ≡ accepted t
      → (s.num_ch.closed ≡ false)
        × (length s.num_ch.buf < s.num_ch.capacity)
        × (t ≡ with_buf s (s.num_ch.buf ++ num ∷ []))
  unfolding calculate
  calculate-accepted s t num e = ground arith

  pub close_nums-accepted :
      (s t : Server V S)
      → close_nums s ≡ accepted t
      → (s.num_ch.closed ≡ false)
        × (t ≡ record s {
          num_ch = record { buf = s.num_ch.buf; capacity = s.num_ch.capacity; closed = true };
        })
  unfolding close_nums
  close_nums-accepted s t e = ground arith

  -- A goroutine that has just been started.
  pub record IsNew (s : Server V S) : Type 0 where
    pub empty : s.num_ch.buf ≡ []
    pub opened : s.num_ch.closed ≡ false
    pub running : s.done ≡ false
    pub recorder : s.rec.recording ≡ true → Holds s.rec []

still_open : {b : Bool} → b ≡ true → b ≡ false → ⊥
still_open p q = cc

foldl-snoc :
    {V : Type 0} (advance : V → Int64 → V) (v : V) (xs : List Int64) (x : Int64)
    → foldl advance v (xs ++ x ∷ []) ≡ advance (foldl advance v xs) x
foldl-snoc advance v [] x = refl
foldl-snoc advance v (y ∷ xs) x = foldl-snoc advance (advance v y) xs x

-- After `nums` have been taken in and `log` recorded, from the values `v`. `advance` is what
-- `compute` does to the values.
pub record Inv {V S : Type 0} (advance : V → Int64 → V) (v : V) (nums : List Int64) (log : List S)
    (s : Server V S) : Type 0 where
  -- the numbers that have been computed with
  pub processed : List Int64
  pub in_order : nums ≡ processed ++ s.num_ch.buf
  pub consistent : s.vals ≡ foldl advance v processed
  pub one_sample_each : length log ≡ length processed
  pub recorder : s.rec.recording ≡ true → Holds s.rec log
  pub finished :
      s.done ≡ true
      → (s.num_ch.buf ≡ [])
        × (s.num_ch.closed ≡ true)
        × (s.rec.recording ≡ true → samples_of s.rec.sent ≡ log)
  pub in_queue : length s.num_ch.buf ≤ s.num_ch.capacity

module _ {V S E : Type 0} (compute : V → Int64 → E → V × S) (regrow : ℕ → ℕ)
    (advance : V → Int64 → V)
    (computes : (v : V) (num : Int64) (took : E) → (compute v num took).0 ≡ advance v num) where
  process-Inv :
      (v : V) (nums : List Int64) (log : List S) (s : Server V S) (rest : List Int64) (num : Int64)
      (took : E) (choice : Option ℕ) (i : Inv advance v nums log s)
      → s.done ≡ false
      → length rest ≤ s.num_ch.capacity
      → (more : List Int64) → nums ++ more ≡ (i.processed ++ num ∷ []) ++ rest
      → let (t, x) = process compute regrow (with_buf s rest) num took choice in
        Inv advance v (nums ++ more) (log ++ x ∷ []) t
  unfolding process
  process-Inv v nums log s rest num took choice i d room more e = record {
    processed = i.processed ++ num ∷ [];
    in_order = e;
    consistent =
        computes s.vals num took
        ∙ ap (λ w. advance w num) i.consistent
        ∙ sym (foldl-snoc advance v i.processed num);
    one_sample_each = omega (
      arith,
      i.one_sample_each,
      length-append log ((compute s.vals num took).1 ∷ []),
      length-append i.processed (num ∷ []),
    );
    recorder = λ k. record_sample-Holds regrow s.rec log (compute s.vals num took).1 choice (
        i.recorder
          (sym (record_sample-recording regrow s.rec (compute s.vals num took).1 choice) ∙ k));
    finished = λ k. cc;
    in_queue = room;
  }

  receive-Inv :
      (v : V) (nums : List Int64) (log new : List S) (s t : Server V S) (buf : List Int64)
      (took : E) (choice : Option ℕ) (i : Inv advance v nums log s)
      → s.done ≡ false
      → s.num_ch.buf ≡ buf
      → receive compute regrow s buf took choice ≡ some (t, new)
      → Inv advance v nums (log ++ new) t
  unfolding receive
  receive-Inv v nums log new s t [] took choice i d b e =
      let (c, e') = when_some s.num_ch.closed e in
      let (p, q) = some_pair e' in
      let same = flush-recording s.rec in
      let flushed =
        λ (k : (flush s.rec).recording ≡ true). flush_lem s.rec log (i.recorder (sym same ∙ k)) in
      rw (p, q, append-nil)
        (record {
          processed = i.processed;
          in_order = i.in_order;
          consistent = i.consistent;
          one_sample_each = i.one_sample_each;
          recorder = λ k. (flushed k).0;
          finished = λ k. (b, c, λ l. (flushed l).2);
          in_queue = i.in_queue;
        })
  receive-Inv v nums log new s t (num ∷ rest) took choice i d b e =
      let (p, q) = some_pair e in
      rw (p, q, ← append-nil nums)
        (process-Inv v nums log s rest num took choice i d (omega (arith, i.in_queue, ap length b))
          []
          (append-nil nums
            ∙ i.in_order
            ∙ ap (◌++◌ i.processed) b
            ∙ sym (append_assoc i.processed (num ∷ []) rest)))

  serve-Inv :
      (v : V) (nums : List Int64) (log new : List S) (s t : Server V S) (ev : Event E)
      → Inv advance v nums log s
      → serve compute regrow s ev ≡ some (t, new)
      → Inv advance v nums (log ++ new) t
  unfolding serve
  serve-Inv v nums log new s t timer_fires i e =
      let (_, e') = when_some (not s.done && s.rec.armed) e in
      let (p, q) = some_pair e' in
      let same = flush-recording s.rec in
      let flushed =
        λ (k : (flush s.rec).recording ≡ true). flush_lem s.rec log (i.recorder (sym same ∙ k)) in
      rw (p, q, append-nil)
        (record {
          processed = i.processed;
          in_order = i.in_order;
          consistent = i.consistent;
          one_sample_each = i.one_sample_each;
          recorder = λ k. (flushed k).0;
          finished = λ k. ((i.finished k).0, (i.finished k).1, λ l. (flushed l).2);
          in_queue = i.in_queue;
        })
  serve-Inv v nums log new s t value_read i e =
      let (_, e') = unless_some s.done e in let (p, q) = some_pair e' in rw (p, q, append-nil) i
  serve-Inv v nums log new s t (number_arrives took choice) i e =
      let (d, e') = unless_some s.done e in
      receive-Inv v nums log new s t s.num_ch.buf took choice i d refl e'

  Step-Inv :
      {s t : Server V S} {more : List Int64} {new : List S} (v : V) (nums : List Int64)
      (log : List S)
      → Step compute regrow s more new t
      → Inv advance v nums log s
      → Inv advance v (nums ++ more) (log ++ new) t
  Step-Inv {s} {t} v nums log (send num e) i =
      let (c, room, p) = calculate-accepted s t num e in
      rw (p, append-nil log)
        (record {
          processed = i.processed;
          in_order =
              ap (λ l. l ++ num ∷ []) i.in_order ∙ append_assoc i.processed s.num_ch.buf (num ∷ []);
          consistent = i.consistent;
          one_sample_each = i.one_sample_each;
          recorder = i.recorder;
          finished = λ k. absurd (still_open (i.finished k).1 c);
          in_queue = omega (arith, length-append s.num_ch.buf (num ∷ []), room);
        })
  Step-Inv {s} v nums log (hand_over num took choice d c b) i =
      let e : with_buf s [] ≡ s = ap (with_buf s) (sym b) in
      rw (← e) (
        process-Inv v nums log s [] num took choice i d (omega arith) (num ∷ []) (
          ap (λ l. l ++ num ∷ []) (i.in_order ∙ ap (◌++◌ i.processed) b ∙ append-nil i.processed)
          ∙ sym (append-nil (i.processed ++ num ∷ []))))
  Step-Inv {s} {t} {new} v nums log (round ev e) i =
      rw append-nil (serve-Inv v nums log new s t ev i e)
  Step-Inv {s} {t} v nums log (close e) i =
      let (c, p) = close_nums-accepted s t e in
      rw (p, append-nil nums, append-nil log)
        (record {
          processed = i.processed;
          in_order = i.in_order;
          consistent = i.consistent;
          one_sample_each = i.one_sample_each;
          recorder = i.recorder;
          finished = λ k. ((i.finished k).0, refl, (i.finished k).2);
          in_queue = i.in_queue;
        })

  -- In every interleaving the values are those of some first part of the numbers taken in, the
  -- rest of which is in the queue, in order; no sample is lost.
  pub Runs-Inv :
      {s t : Server V S} {nums : List Int64} {log : List S}
      → IsNew s
      → Runs compute regrow s nums log t
      → Inv advance s.vals nums log t
  Runs-Inv {s} n start = record {
    processed = [];
    in_order = sym n.empty;
    consistent = refl;
    one_sample_each = refl;
    recorder = n.recorder;
    finished = λ k. absurd (still_open k n.running);
    in_queue = omega (arith, ap length n.empty);
  }
  Runs-Inv {s} n (next {nums = nums} {log = log} r st) = Step-Inv s.vals nums log st (Runs-Inv n r)
