-- ===== src/Deque/Segment.antt =====
-- What a ring buffer holds from a position on, going round once at its end.
use cdnnow_test_golang.Shared.{
  ℕ, zero, suc, ◌+◌, ◌-◌, ◌*◌, ◌≤◌, ◌<◌, ◌≡◌, refl, ap, ap₂, ◌∙◌, ◌≢◌, List, [], ◌∷◌, ◌++◌, arith,
  length, get_or, set, take, drop, get_or-set_self, get_or-set_ne, take_all, length-drop,
}
use cdnnow_test_golang.Deque.{wrap}

module _ {ℓ} {A : Type ℓ} (nil : A) where
  -- The `n` elements from position `p`, where `cap` is the length of the buffer.
  abbrev pub segment : List A → ℕ → ℕ → ℕ → List A
  segment buf cap p zero = []
  segment buf cap p (suc n) = get_or buf (wrap cap p) nil ∷ segment buf cap (p + 1) n

  pub length-segment : (buf : List A) (cap p n : ℕ) → length (segment buf cap p n) ≡ n
  length-segment buf cap p zero = refl
  length-segment buf cap p (suc n) = ap suc (length-segment buf cap (p + 1) n)

  pub segment-add :
      (buf : List A) (cap p m n q k : ℕ)
      → q ≡ p + m
      → k ≡ m + n
      → segment buf cap p k ≡ segment buf cap p m ++ segment buf cap q n
  segment-add buf cap p zero n q k e f =
      let e' : q ≡ p = omega arith in let f' : k ≡ n = omega arith in rw (e', f')
  segment-add buf cap p (suc m) n q k e f =
      let f' : k ≡ suc (m + n) = omega arith in
      rw f' (
        ap (◌∷◌ (get_or buf (wrap cap p) nil))
          (segment-add buf cap (p + 1) m n q (m + n) (omega arith) refl))

  pub get_or-segment :
      (buf : List A) (cap p n i : ℕ)
      → i < n
      → get_or (segment buf cap p n) i nil ≡ get_or buf (wrap cap (p + i)) nil
  get_or-segment buf cap p zero i h = absurd (omega arith)
  get_or-segment buf cap p (suc n) zero h = ap (λ k. get_or buf (wrap cap k) nil) (omega arith)
  get_or-segment buf cap p (suc n) (suc i) h =
      get_or-segment buf cap (p + 1) n i (omega arith)
      ∙ ap (λ k. get_or buf (wrap cap k) nil) (omega arith)

  -- A write outside the segment is not seen in it.
  pub segment-set_ne :
      (buf : List A) (cap i : ℕ) (v : A) (p n : ℕ)
      → ((j : ℕ) → p ≤ j → j < p + n → i ≢ wrap cap j)
      → segment (set buf i v) cap p n ≡ segment buf cap p n
  segment-set_ne buf cap i v p zero h = refl
  segment-set_ne buf cap i v p (suc n) h =
      ap₂ ◌∷◌ (get_or-set_ne buf v nil (h p (omega arith) (omega arith)))
        (segment-set_ne buf cap i v (p + 1) n (λ j a b. h j (omega arith) (omega arith)))

  -- A write inside the segment changes that element.
  pub segment-set :
      (buf : List A) (cap k i : ℕ) (v : A) (p n : ℕ)
      → cap ≡ length buf
      → k ≡ wrap cap (p + i)
      → i < n
      → n ≤ cap
      → p + n ≤ 2 * cap
      → segment (set buf k v) cap p n ≡ set (segment buf cap p n) i v
  segment-set buf cap k i v p zero e f h m l = absurd (omega arith)
  segment-set buf cap k zero v p (suc n) e f h m l =
      let f' : k ≡ wrap cap p = ground arith in
      ap₂ ◌∷◌ (rw f' (get_or-set_self buf (wrap cap p) v nil (ground arith)))
        (segment-set_ne buf cap k v (p + 1) n (λ j a b. ground arith))
  segment-set buf cap k (suc i) v p (suc n) e f h m l =
      ap₂ ◌∷◌ (get_or-set_ne buf v nil (ground arith)) (
        segment-set buf cap k i v (p + 1) n e (ground arith) (omega arith) (omega arith)
          (omega arith))

  -- Past the end the positions go on from the start.
  pub segment-round :
      (buf : List A) (cap p n : ℕ)
      → cap ≤ p
      → p + n ≤ 2 * cap
      → segment buf cap p n ≡ segment buf cap (p - cap) n
  segment-round buf cap p zero h k = refl
  segment-round buf cap p (suc n) h k = ap₂ ◌∷◌ (ap (λ i. get_or buf i nil) (ground arith)) (
      segment-round buf cap (p + 1) n (omega arith) (omega arith)
      ∙ ap (λ q. segment buf cap q n) (omega arith))

  drop-cons :
      (buf : List A) (p q : ℕ)
      → p < length buf
      → q ≡ suc p
      → drop p buf ≡ get_or buf p nil ∷ drop q buf
  drop-cons [] p q h e = absurd (omega arith)
  drop-cons (x ∷ buf) zero q h e = rw e
  drop-cons (x ∷ buf) (suc p) q h e = rw e (drop-cons buf p (suc p) (omega arith) refl)

  -- A segment that does not go round is a slice of the buffer.
  pub segment-slice :
      (buf : List A) (cap p n : ℕ)
      → cap ≡ length buf
      → p + n ≤ cap
      → segment buf cap p n ≡ take n (drop p buf)
  segment-slice buf cap p zero e h = refl
  segment-slice buf cap p (suc n) e h = rw (drop-cons buf p (p + 1) (omega arith) (omega arith)) (
      ap₂ ◌∷◌ (ap (λ i. get_or buf i nil) (ground arith))
        (segment-slice buf cap (p + 1) n e (omega arith)))

  -- One that does is the end of the buffer, then its start.
  pub segment-slices :
      (buf : List A) (cap p n : ℕ)
      → cap ≡ length buf
      → p ≤ cap
      → cap ≤ p + n
      → n ≤ cap
      → segment buf cap p n ≡ drop p buf ++ take (p + n - cap) buf
  segment-slices buf cap p n e h k l =
      segment-add buf cap p (cap - p) (p + n - cap) cap n (omega arith) (omega arith)
      ∙ ap₂ ◌++◌
          (segment-slice buf cap p (cap - p) e (omega arith)
            ∙ take_all (cap - p) (drop p buf) (omega (arith, length-drop p buf)))
          (segment-round buf cap cap (p + n - cap) (omega arith) (omega arith)
            ∙ ap (λ q. segment buf cap q (p + n - cap)) (omega arith)
            ∙ segment-slice buf cap 0 (p + n - cap) e (omega arith))

  pub segment-congr :
      (buf buf' : List A) (cap cap' : ℕ) (p n : ℕ)
      → ((j : ℕ) → p ≤ j → j < p + n → get_or buf (wrap cap j) nil ≡ get_or buf' (wrap cap' j) nil)
      → segment buf cap p n ≡ segment buf' cap' p n
  segment-congr buf buf' cap cap' p zero h = refl
  segment-congr buf buf' cap cap' p (suc n) h =
      ap₂ ◌∷◌ (h p (omega arith) (omega arith))
        (segment-congr buf buf' cap cap' (p + 1) n (λ j a b. h j (omega arith) (omega arith)))
