-- ===== src/Metrics/Aggregator/Windows.antt =====
-- The windows of the aggregator hold the counts of the last sixty seconds.
use cdnnow_test_golang.Shared.{
  ℕ, zero, suc, ◌+◌, ◌%◌, ◌≡◌, refl, sym, ap, ◌∙◌, Option, some, List, [], ◌∷◌, ◌++◌, length, drop,
  replicate, arith, if◌then◌else◌, length-append, length-drop, append_assoc, ◌≢◌,
}
use cdnnow_test_golang.Deque.{Deque}
use cdnnow_test_golang.Deque.Valid.{IsValid, contents, length-contents}
use cdnnow_test_golang.Deque.Ops.{push_back_lem, pop_front_lem}
use cdnnow_test_golang.Operators.{modulus}
use cdnnow_test_golang.Metrics.Kinds.{
  RequestKind, by_request, ok, overload, bad_request, failed, same_request, for_requests,
}
use cdnnow_test_golang.Metrics.Aggregator.{
  Histograms, Aggregator, hist_buckets, rotate_window, rotate, report_overflow,
}
use cdnnow_test_golang.Metrics.Aggregator.Loop.{tick}
use cdnnow_test_golang.Metrics.Aggregator.Client.{Action, counts, serves}

-- What a request counter should show: the counts of the seconds that have ended, oldest first, and
-- the count of the current one. A count wraps at 2^64.
pub record Tally : Type 0 where
  pub seconds : List ℕ
  pub current : ℕ

unfoldable pub tally : RequestKind → Tally → Action → Tally
tally k t (counts j n) =
    if same_request k j then record t { current = (t.current + n) % modulus } else t
tally k t (serves tick) = record { seconds = t.seconds ++ t.current ∷ []; current = 0 }
tally k t x = t

-- The last sixty of the seconds; those before the start count 0.
abbrev pub window : List ℕ → List ℕ
window seconds = drop (length seconds) (replicate hist_buckets 0 ++ seconds)

drop-slide :
    (m : ℕ) (xs rest : List ℕ) (v n : ℕ)
    → drop m xs ≡ v ∷ rest
    → drop (suc m) (xs ++ n ∷ []) ≡ rest ++ n ∷ []
drop-slide zero xs rest v n e = rw e
drop-slide (suc m) [] rest v n e = cc
drop-slide (suc m) (x ∷ xs) rest v n e = drop-slide m xs rest v n e

pub length-window : (seconds : List ℕ) → length (window seconds) ≡ hist_buckets
length-window seconds = omega (
  arith,
  length-drop (length seconds) (replicate hist_buckets 0 ++ seconds),
  length-append (replicate hist_buckets 0) seconds,
)

window-slide :
    (seconds rest : List ℕ) (v n : ℕ)
    → window seconds ≡ v ∷ rest
    → rest ++ n ∷ [] ≡ window (seconds ++ n ∷ [])
window-slide seconds rest v n e =
    sym (drop-slide (length seconds) (replicate hist_buckets 0 ++ seconds) rest v n e)
    ∙ ap (drop (suc (length seconds))) (append_assoc (replicate hist_buckets 0) seconds (n ∷ []))
    ∙ ap (λ m. drop m (replicate hist_buckets 0 ++ (seconds ++ n ∷ []))) one_more
  where
    one_more : suc (length seconds) ≡ length (seconds ++ n ∷ [])
    one_more = omega (arith, length-append seconds (n ∷ []))

-- A deque that shows the window of some seconds.
pub record Shows (q : Deque ℕ) (seconds : List ℕ) : Type 0 where
  pub valid : IsValid q
  pub held : contents 0 q ≡ window seconds

rotate_window-Shows :
    (q : Deque ℕ) (seconds : List ℕ) (n : ℕ)
    → Shows q seconds
    → (e : Deque ℕ) × (rotate_window q n ≡ some e) × Shows e (seconds ++ n ∷ [])
unfolding rotate_window
rotate_window-Shows q seconds n s =
    let full : q.size ≢ 0 =
      λ z. omega (arith, length-contents 0 q, ap length s.held, length-window seconds, z) in
    let (v, p, _, popped, p_valid, split) = pop_front_lem 0 q s.valid full in
    let (e, pushed, e_valid, joined) = push_back_lem 0 p n p_valid in
    (
      e,
      rw popped pushed,
      record {
        valid = e_valid;
        held = joined ∙ window-slide seconds (contents 0 p) v n (sym s.held ∙ split);
      },
    )

-- The loop over the kinds, where each round returns.
for_requests-some :
    {A : Type 0} (P : RequestKind → A → Type 0) (f : RequestKind → Option A)
    → ((k : RequestKind) → (a : A) × (f k ≡ some a) × P k a)
    → (g : RequestKind → A) × (for_requests f ≡ some g) × ((k : RequestKind) → P k (g k))
for_requests-some P f each =
    let (a, ea, pa) = each ok in
    let (b, eb, pb) = each overload in
    let (c, ec, pc) = each bad_request in
    let (d, ed, pd) = each failed in
    (
      _,
      rw (ea, eb, ec, ed) refl,
      λ k. elim k as (λ k. P k (by_request a b c d k)) [
        | ok ↦ pa
        | overload ↦ pb
        | bad_request ↦ pc
        | failed ↦ pd
      ],
    )

module _ {h : Histograms} where
  -- The counters of the aggregator show the tallies.
  pub record Counts (a : Aggregator h) (t : RequestKind → Tally) : Type 0 where
    pub shown : (k : RequestKind) → Shows (a.reqs k) (t k).seconds
    pub counted : (k : RequestKind) → a.cnts k ≡ (t k).current

  report_overflow-Counts :
      (a : Aggregator h) (t : RequestKind → Tally) → Counts a t → Counts (report_overflow a) t
  unfolding report_overflow
  report_overflow-Counts a t c = ground arith

  report_overflow-snap : (a : Aggregator h) → (report_overflow a).snap ≡ a.snap
  unfolding report_overflow
  report_overflow-snap a = ground arith

  -- `rotate` never panics, and ends a second.
  pub rotate-Counts :
      (a : Aggregator h) (t : RequestKind → Tally)
      → Counts a t
      → (b : Aggregator h) × (rotate a ≡ some b)
        × (b.snap ≡ a.snap)
        × Counts b (λ k. tally k (t k) (serves tick))
  unfolding rotate tally
  rotate-Counts a t c =
      let b : Aggregator h = report_overflow a in
      let d = report_overflow-Counts a t c in
      let (g, e, s) =
        for_requests-some (λ k q. Shows q ((t k).seconds ++ (t k).current ∷ []))
          (λ k. rotate_window (b.reqs k) (b.cnts k))
          (λ k.
            rw (d.counted k)
              (rotate_window-Shows (b.reqs k) (t k).seconds (t k).current (d.shown k))) in
      (
        record b { reqs = g; cnts = λ k. 0; hists = λ k. h.rotate_windowed (b.hists k) },
        rw e refl,
        report_overflow-snap a,
        record { shown = s; counted = λ k. refl },
      )
