-- ===== src/Deque/Ends.antt =====
-- Writes and reads at the two ends of a segment.
use cdnnow_test_golang.Shared.{
  ℕ, suc, ◌+◌, ◌-◌, ◌≤◌, ◌<◌, ◌≡◌, refl, ap, ap₂, ◌∙◌, List, [], ◌∷◌, ◌++◌, arith, length, set,
  get_or, get_or-set_self, ◌⊎◌, inl, inr,
}
use cdnnow_test_golang.Deque.{wrap}
use cdnnow_test_golang.Deque.Segment.{segment, segment-add, segment-set_ne, segment-round}

-- The position `f` is the one before `p` on a ring of `cap` slots.
abbrev pub Before : ℕ → ℕ → ℕ → Type 0
Before cap f p = (suc f ≡ p) ⊎ ((suc f ≡ cap) × (p ≡ 0))

module _ {ℓ} {A : Type ℓ} (nil : A) where
  -- One element from `f` on, and the rest from the next position.
  pub segment-step :
      (buf : List A) (cap f p n m : ℕ)
      → f < cap
      → n ≤ cap
      → m ≡ suc n
      → Before cap f p
      → segment nil buf cap f m ≡ get_or buf f nil ∷ segment nil buf cap p n
  segment-step buf cap f p n m h l e (inl b) =
      let b' : p ≡ f + 1 = omega arith in
      rw (e, b') (ap (λ k. get_or buf k nil ∷ segment nil buf cap (f + 1) n) (ground arith))
  segment-step buf cap f p n m h l e (inr b) =
      let b' : p ≡ f + 1 - cap = omega arith in
      rw (e, b')
        (ap₂ ◌∷◌ (ap (λ k. get_or buf k nil) (ground arith))
          (segment-round nil buf cap (f + 1) n (omega arith) (omega arith)))

  -- The last element, at position `k`.
  pub segment-last :
      (buf : List A) (cap k p n m : ℕ)
      → k ≡ wrap cap (p + n)
      → m ≡ suc n
      → segment nil buf cap p m ≡ segment nil buf cap p n ++ get_or buf k nil ∷ []
  segment-last buf cap k p n m e f =
      rw e (segment-add nil buf cap p n 1 (p + n) m refl (omega arith))

  -- A write just before a segment, to the front of a longer one.
  pub segment-push_front :
      (buf : List A) (cap f p n m : ℕ) (v : A)
      → cap ≡ length buf
      → f < cap
      → n < cap
      → m ≡ suc n
      → Before cap f p
      → segment nil (set buf f v) cap f m ≡ v ∷ segment nil buf cap p n
  segment-push_front buf cap f p n m v c h l e b =
      segment-step (set buf f v) cap f p n m h (omega arith) e b
      ∙ ap₂ ◌∷◌ (get_or-set_self buf f v nil (omega arith))
          (segment-set_ne nil buf cap f v p n (λ j lo hi. ground arith))

  -- A write just behind a segment, to the back of a longer one.
  pub segment-push_back :
      (buf : List A) (cap k p n m : ℕ) (v : A)
      → cap ≡ length buf
      → p < cap
      → n < cap
      → k ≡ wrap cap (p + n)
      → m ≡ suc n
      → segment nil (set buf k v) cap p m ≡ segment nil buf cap p n ++ v ∷ []
  segment-push_back buf cap k p n m v c h l e f =
      segment-last (set buf k v) cap k p n m e f
      ∙ ap₂ (λ xs x. xs ++ x ∷ []) (segment-set_ne nil buf cap k v p n (λ j lo hi. ground arith))
          (get_or-set_self buf k v nil (ground arith))
