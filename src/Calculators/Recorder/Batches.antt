-- ===== src/Calculators/Recorder/Batches.antt =====
-- No sample is lost, and every batch keeps the capacity with which it was made.
use cdnnow_test_golang.Shared.{
  not, ℕ, suc, ◌≤◌, ◌<◌, ◌≡◌, refl, sym, ap, ◌∙◌, Bool, true, false, inl, inr, Option, none, some,
  List, [], ◌∷◌, ◌++◌, arith, length, length-append, append_assoc, append-nil, Bool-cases, leb,
  if◌then◌else◌, lt→ltb,
}
use cdnnow_test_golang.Pools.{Slice, BatchPool, make_slice}
use cdnnow_test_golang.Pools
use cdnnow_test_golang.Pools.Safety.{IsFresh, get-IsFresh}
use cdnnow_test_golang.Pools.Safety
use cdnnow_test_golang.Calculators.Recorder.{
  ensure_batch, make_batch, Recorder, append, flush, record_sample,
}

-- The pool is valid, and of the recorder's batch size.
abbrev pub PoolFits : ℕ → Option BatchPool → Type 0
PoolFits n none = Unit {0}
PoolFits n (some p) = Safety.IsValid p × (p.batch_size ≡ n)

module _ {S : Type 0} where
  -- All samples of a list of batches, in order.
  abbrev pub samples_of : List (Slice S) → List S
  samples_of [] = []
  samples_of (b ∷ bs) = b.elems ++ samples_of bs

  pub samples_of-append :
      (bs : List (Slice S)) (b : Slice S) → samples_of (bs ++ b ∷ []) ≡ samples_of bs ++ b.elems
  samples_of-append [] b = append-nil b.elems
  samples_of-append (a ∷ bs) b =
      ap (◌++◌ a.elems) (samples_of-append bs b)
      ∙ sym (append_assoc a.elems (samples_of bs) b.elems)

  abbrev pub pending : Option (Slice S) → List S
  pending none = []
  pending (some s) = s.elems

  -- A batch that is open: the timer is armed, and there is room for one more sample.
  abbrev pub IsOpen : ℕ → Bool → Option (Slice S) → Type 0
  IsOpen n armed none = armed ≡ false
  IsOpen n armed (some s) =
      (armed ≡ true)
      × (0 < length s.elems)
      × (length s.elems < n)
      × (s.capacity ≡ n)
      × (n ≤ s.backing)

  -- A batch that may be handed over: its capacity is the pool's, so `Put` keeps it.
  abbrev pub Whole : ℕ → Slice S → Type 0
  Whole n s = (0 < length s.elems) × (length s.elems ≤ n) × (s.capacity ≡ n) × (n ≤ s.backing)

  abbrev pub AllSent : ℕ → List (Slice S) → Type 0
  AllSent n [] = Unit {0}
  AllSent n (s ∷ ss) = Whole n s × AllSent n ss

  AllSent-append :
      (n : ℕ) (ss : List (Slice S)) (s : Slice S)
      → AllSent n ss
      → Whole n s
      → AllSent n (ss ++ s ∷ [])
  AllSent-append n [] s h k = (k, tt)
  AllSent-append n (x ∷ ss) s h k = (h.0, AllSent-append n ss s h.1 k)

  pub flush-recording : (r : Recorder S) → (flush r).recording ≡ r.recording
  unfolding flush
  flush-recording r = by_batch r.batch r.recording
    where
      by_batch :
          (o : Option (Slice S)) (b : Bool)
          → let v : Recorder S = elim o [
            | none ↦ r
            | some s ↦
                if b then record r { batch = none; armed = false; sent = r.sent ++ s ∷ [] } else r
          ] in
            v.recording ≡ r.recording
      by_batch none b = refl
      by_batch (some s) true = refl
      by_batch (some s) false = refl

  ensure_batch-recording :
      (r : Recorder S) (choice : Option ℕ) → (ensure_batch r choice).1.recording ≡ r.recording
  unfolding ensure_batch
  ensure_batch-recording r choice = by_batch r.batch
    where
      by_batch :
          (o : Option (Slice S))
          → let p : Slice S × Recorder S = elim o [
            | some s ↦ (s, r)
            | none ↦
                let (s, pool) = make_batch r choice in
                (s, record r { batch_pool = pool; batch = some s; armed = true })
          ] in
            p.1.recording ≡ r.recording
      by_batch none = refl
      by_batch (some s) = refl

  pub record_sample-recording :
      (regrow : ℕ → ℕ) (r : Recorder S) (x : S) (choice : Option ℕ)
      → (record_sample regrow r x choice).recording ≡ r.recording
  unfolding record_sample
  record_sample-recording regrow r x choice = by_tests (not r.recording) (leb r.batch_size _)
    where
      t : Recorder S
      t = record ((ensure_batch r choice).1) {
        batch = some (append regrow (ensure_batch r choice).0 x);
      }

      by_tests :
          (a b : Bool) → (if a then r else (if b then flush t else t)).recording ≡ r.recording
      by_tests true b = refl
      by_tests false true = flush-recording t ∙ ensure_batch-recording r choice
      by_tests false false = ensure_batch-recording r choice

  -- The recorder, after `log` has been recorded.
  pub record Holds (r : Recorder S) (log : List S) : Type 0 where
    pub recording : r.recording ≡ true
    pub positive : 0 < r.batch_size
    pub pool_fits : PoolFits r.batch_size r.batch_pool
    pub batch_open : IsOpen r.batch_size r.armed r.batch
    pub sent_whole : AllSent r.batch_size r.sent
    pub all_there : samples_of r.sent ++ pending r.batch ≡ log

  -- What an operation leaves when it hands over a batch, or finds none.
  abbrev pub Flushed : Recorder S → List S → Type 0
  Flushed r log = Holds r log × (r.batch ≡ none) × (samples_of r.sent ≡ log)

  abbrev at : ℕ → Option BatchPool → Option (Slice S) → Bool → List (Slice S) → Recorder S
  at n bp b armed sent = record {
    recording = true;
    batch_pool = bp;
    batch_size = n;
    batch = b;
    armed = armed;
    sent = sent;
  }

  Flushed-some :
      (n : ℕ) (bp : Option BatchPool) (s : Slice S) (armed : Bool) (sent : List (Slice S))
      (log : List S)
      → 0 < n
      → PoolFits n bp
      → AllSent n sent
      → Whole n s
      → samples_of sent ++ s.elems ≡ log
      → Flushed (flush (at n bp (some s) armed sent)) log
  unfolding flush
  Flushed-some n bp s armed sent log pos fits old new e = (
    record {
      recording = refl;
      positive = pos;
      pool_fits = fits;
      batch_open = refl;
      sent_whole = AllSent-append n sent s old new;
      all_there = append-nil (samples_of (sent ++ s ∷ [])) ∙ samples_of-append sent s ∙ e;
    },
    refl,
    samples_of-append sent s ∙ e,
  )

  flush_parts :
      (on : Bool) (n : ℕ) (bp : Option BatchPool) (b : Option (Slice S)) (armed : Bool)
      (sent : List (Slice S)) (log : List S)
      → Holds (record (at n bp b armed sent) { recording = on }) log
      → Flushed (flush (record (at n bp b armed sent) { recording = on })) log
  unfolding flush
  flush_parts false n bp b armed sent log h = cc h.recording
  flush_parts true n bp none armed sent log h =
      (h, refl, sym (append-nil (samples_of sent)) ∙ h.all_there)
  flush_parts true n bp (some s) armed sent log h =
      Flushed-some n bp s armed sent log h.positive h.pool_fits h.sent_whole
        (omega (arith, h.batch_open)) h.all_there

  -- `flush` hands the open batch over, and loses nothing.
  pub flush_lem : (r : Recorder S) (log : List S) → Holds r log → Flushed (flush r) log
  flush_lem r log h = flush_parts r.recording r.batch_size r.batch_pool r.batch r.armed r.sent log h

  -- The last lines of `record`, with a batch that has room.
  add_sample :
      (regrow : ℕ → ℕ) (n : ℕ) (bp : Option BatchPool) (s : Slice S) (sent : List (Slice S))
      (log : List S) (x : S)
      → 0 < n
      → PoolFits n bp
      → AllSent n sent
      → (length s.elems < n) × (s.capacity ≡ n) × (n ≤ s.backing)
      → samples_of sent ++ s.elems ≡ log
      → let s' = append regrow s x in
        let t = at n bp (some s') true sent in
        Holds (if leb n (length s'.elems) then flush t else t) (log ++ x ∷ [])
  unfolding append
  add_sample regrow n bp s sent log x pos fits old (room, same, inside) e =
      rw (lt→ltb (length s.elems) s.capacity (omega arith))
        (elim (Bool-cases (leb n (length (s.elems ++ x ∷ [])))) [
          | inl full ↦
              rw full
                (Flushed-some n bp s' true sent (log ++ x ∷ []) pos fits old (omega (arith, len))
                  there).0
          | inr more ↦ rw more (record {
            recording = refl;
            positive = pos;
            pool_fits = fits;
            batch_open = (refl, omega (arith, len), ground (arith, len), same, inside);
            sent_whole = old;
            all_there = there;
          })
        ])
    where
      s' : Slice S
      s' = record s { elems = s.elems ++ x ∷ [] }

      len : length (s.elems ++ x ∷ []) ≡ suc (length s.elems)
      len = omega (arith, length-append s.elems (x ∷ []))

      there : samples_of sent ++ (s.elems ++ x ∷ []) ≡ log ++ x ∷ []
      there = sym (append_assoc (samples_of sent) s.elems (x ∷ [])) ∙ ap (λ l. l ++ x ∷ []) e

  record_parts :
      (regrow : ℕ → ℕ) (on : Bool) (n : ℕ) (bp : Option BatchPool) (b : Option (Slice S))
      (armed : Bool) (sent : List (Slice S)) (log : List S) (x : S) (choice : Option ℕ)
      → Holds (record (at n bp b armed sent) { recording = on }) log
      → Holds
          (record_sample regrow (record (at n bp b armed sent) { recording = on }) x choice)
          (log ++ x ∷ [])
  unfolding record_sample make_slice
  record_parts regrow false n bp b armed sent log x choice h = cc h.recording
  record_parts regrow true n bp (some s) armed sent log x choice h = rw h.batch_open.0 (
      add_sample regrow n bp s sent log x h.positive h.pool_fits h.sent_whole
        (omega (arith, h.batch_open)) h.all_there)
  record_parts regrow true n none none armed sent log x choice h =
      add_sample regrow n none (make_slice n) sent log x h.positive tt h.sent_whole
        (h.positive, refl, omega arith) h.all_there
  record_parts regrow true n (some p) none armed sent log x choice h =
      let (f, v, e) = get-IsFresh S p choice h.pool_fits.0 in
      add_sample regrow n (some (Pools.get {A = S} p choice).1) (Pools.get p choice).0 sent log x
        h.positive (v, e ∙ h.pool_fits.1) h.sent_whole
        (
          omega (arith, ap length f.empty, h.positive),
          f.right_size ∙ h.pool_fits.1,
          omega (arith, f.room, h.pool_fits.1),
        )
        (ap (◌++◌ (samples_of sent)) f.empty ∙ h.all_there)

  -- `record` adds its sample to what has been recorded, whatever the pool answers; it never makes a
  -- batch outgrow its array, and it hands over a batch as soon as that is full.
  pub record_sample-Holds :
      (regrow : ℕ → ℕ) (r : Recorder S) (log : List S) (x : S) (choice : Option ℕ)
      → Holds r log
      → Holds (record_sample regrow r x choice) (log ++ x ∷ [])
  record_sample-Holds regrow r log x choice h =
      record_parts regrow r.recording r.batch_size r.batch_pool r.batch r.armed r.sent log x choice
        h
