-- ===== src/Deque/Valid.antt =====
-- The representation invariant of a deque, the list that it stands for, and growth.
use cdnnow_test_golang.Shared.{
  ℕ, ◌+◌, ◌-◌, ◌≤◌, ◌<◌, max, ◌≡◌, refl, sym, ap, ◌∙◌, List, ◌++◌, arith, length, take, drop,
  replicate, copy, slice, leb, length-take, length-drop, take-append, drop-append, copy-replicate,
  append_assoc, Bool-cases, inl, inr, leb→le,
}
use cdnnow_test_golang.Deque.{Deque, moved}
use cdnnow_test_golang.Deque.Segment.{segment, length-segment, segment-slice, segment-slices}

-- `front` is an index of the buffer, or 0 in the empty one.
pub record IsValid {ℓ} {A : Type ℓ} (d : Deque A) : Type 0 where
  pub front_in : d.front < max 1 (length d.buf)
  pub size_in : d.size ≤ length d.buf

module _ {ℓ} {A : Type ℓ} (nil : A) where
  -- The elements, from the front to the back.
  abbrev pub contents : Deque A → List A
  contents d = segment nil d.buf (length d.buf) d.front d.size

  pub length-contents : (d : Deque A) → length (contents d) ≡ d.size
  length-contents d = length-segment nil d.buf (length d.buf) d.front d.size

  -- Elements that do not go round are a slice of the buffer.
  pub contents-slice :
      (d : Deque A) (hi : ℕ)
      → d.front + d.size ≤ length d.buf
      → hi ≡ d.front + d.size
      → slice d.buf d.front hi ≡ contents d
  contents-slice d hi h e =
      let e' : hi - d.front ≡ d.size = omega arith in
      ap (λ k. take k (drop d.front d.buf)) e'
      ∙ sym (segment-slice nil d.buf (length d.buf) d.front d.size refl h)

  -- Elements that do are the end of the buffer and then its start.
  pub contents-round :
      {d : Deque A} (k : ℕ)
      → IsValid d
      → length d.buf ≤ d.front + d.size
      → length d.buf + k ≡ d.front + d.size
      → drop d.front d.buf ++ take k d.buf ≡ contents d
  contents-round {d} k v h e =
      let e' : k ≡ d.front + d.size - length d.buf = omega arith in
      ap (λ k. drop d.front d.buf ++ take k d.buf) e'
      ∙ sym (segment-slices nil d.buf (length d.buf) d.front d.size refl (omega arith) h v.size_in)

  -- The two copies of `grow`, of the end `xs` and the start `ys` of the old buffer.
  two_copies :
      (cap n m : ℕ) (xs ys : List A)
      → n ≡ length xs
      → m + length xs + length ys ≡ cap
      → take n (copy (replicate cap nil) xs) ++ copy (drop n (copy (replicate cap nil) xs)) ys
        ≡ (xs ++ ys) ++ replicate m nil
  two_copies cap n m xs ys e h = rw (copy-replicate cap (m + length ys) nil xs (omega arith)) (
      rw (take-append xs _ n e, drop-append xs _ n e, copy-replicate _ m nil ys refl)
        (sym (append_assoc xs ys (replicate m nil))))

  -- The new buffer of `grow` begins with the elements, in order, and is otherwise fresh.
  pub moved_lem :
      (d : Deque A) (cap m : ℕ)
      → IsValid d
      → 0 < length d.buf
      → m + d.size ≡ cap
      → moved nil d cap ≡ contents d ++ replicate m nil
  unfolding moved
  moved_lem d cap m v pos e = elim (Bool-cases (leb (d.front + d.size) (length d.buf))) [
    | inl h ↦
        let straight = contents-slice d _ (leb→le _ _ h) refl in
        rw (h, straight) (copy-replicate cap m nil (contents d) (omega (arith, length-contents d)))
    | inr h ↦
        let round =
          contents-round {d = d} (d.size - (length d.buf - d.front)) v (ground arith)
            (ground arith) in
        rw (h, ← round)
          (two_copies cap (length d.buf - d.front) m (drop d.front d.buf) _
            (omega (arith, length-drop d.front d.buf))
            (ground (
              arith,
              length-drop d.front d.buf,
              length-take (d.size - (length d.buf - d.front)) d.buf,
            )))
  ]
