-- ===== src/Deque/Access.antt =====
-- Reads and writes by index, the snapshot and the reset, from any valid deque.
use cdnnow_test_golang.Shared.{
  ℕ, ◌+◌, ◌≤◌, ◌<◌, ◌≡◌, ◌≢◌, refl, sym, ap, ◌∙◌, List, [], ◌++◌, arith, length, take, drop, copy,
  set, get_elem?, inl, inr, leb, ltb, leb→le, ◌==◌, length-set, length-take, length-drop,
  length-replicate, set_elem?-some, get_elem?-eq-get_or, get_elem?_beyond, true, false, none, some,
  Bool-cases, take-append, drop-append, take_all, drop_all, append-nil, pos,
}
use cdnnow_test_golang.Deque.{Deque, wrap, at, set_at, snapshot_into, to_slice, reset}
use cdnnow_test_golang.Deque.Valid.{
  IsValid, contents, length-contents, contents-slice, contents-round,
}
use cdnnow_test_golang.Deque.Segment.{segment, segment-set, get_or-segment}
use cdnnow_test_golang.Deque.Grow.{segment-zero}

module _ {ℓ} {A : Type ℓ} (nil : A) where
  pub at_lem : (d : Deque A) (i : ℕ) → IsValid d → at d (pos i) ≡ get_elem? (contents nil d) i
  unfolding at
  at_lem d i v = elim (Bool-cases (leb d.size i)) [
    | inl h ↦ rw h (
        sym (
          get_elem?_beyond (contents nil d) i (omega (arith, leb→le _ _ h, length-contents nil d))))
    | inr h ↦
        rw (h, get_elem?-eq-get_or d.buf (wrap (length d.buf) (d.front + i)) nil (ground arith))
          (sym (
            get_elem?-eq-get_or (contents nil d) i nil (ground (arith, length-contents nil d))
            ∙ ap some (get_or-segment nil d.buf (length d.buf) d.front d.size i (ground arith))))
  ]

  pub set_at_lem :
      (d : Deque A) (i : ℕ) (v : A)
      → IsValid d
      → i < d.size
      → (e : Deque A) × (set_at d (pos i) v ≡ some e)
        × IsValid e
        × (contents nil e ≡ set (contents nil d) i v)
  unfolding set_at
  set_at_lem d i v h l = (
    record d { buf = set d.buf k v },
    rw (inside, set_elem?-some d.buf k v (ground arith)),
    ground (arith, length-set d.buf k v),
    ap (λ n. segment nil (set d.buf k v) n d.front d.size) (length-set d.buf k v)
        ∙ segment-set nil d.buf (length d.buf) k i v d.front d.size refl refl l (omega arith)
            (omega arith),
  )
    where
      k : ℕ
      k = wrap (length d.buf) (d.front + i)

      inside : leb d.size i ≡ false
      inside = ground arith

  pub set_at_beyond : (d : Deque A) (i : ℕ) (v : A) → d.size ≤ i → set_at d (pos i) v ≡ none
  unfolding set_at
  set_at_beyond d i v h = let out : leb d.size i ≡ true = ground arith in rw out

  -- `copy` of at most the length of the destination.
  copy_lem :
      (dst src : List A) → length src ≤ length dst → copy dst src ≡ src ++ drop (length src) dst
  copy_lem dst src h = ap (λ xs. xs ++ drop (length src) dst) (take_all (length dst) src h)

  -- A full `copy` leaves nothing of the destination.
  copy_all : (dst src : List A) → length src ≡ length dst → copy dst src ≡ src
  copy_all dst src h =
      copy_lem dst src (omega arith)
      ∙ ap (◌++◌ src) (drop_all (length src) dst (omega arith))
      ∙ append-nil src

  two_copies :
      (dst xs ys : List A) (n : ℕ)
      → n ≡ length xs
      → length xs + length ys ≡ length dst
      → take n (copy dst xs) ++ copy (drop n (copy dst xs)) ys ≡ xs ++ ys
  two_copies dst xs ys n e h = rw (copy_lem dst xs (omega arith)) (
      rw (take-append xs _ n e, drop-append xs _ n e)
        (ap (◌++◌ xs)
          (copy_all (drop (length xs) dst) ys (omega (arith, length-drop (length xs) dst)))))

  snapshot_into_lem :
      (d : Deque A) (buf : List A)
      → IsValid d
      → d.size ≢ 0
      → length buf ≡ d.size
      → snapshot_into nil d buf ≡ contents nil d
  unfolding snapshot_into
  snapshot_into_lem d buf v ne e =
      elim (Bool-cases (ltb d.front (wrap (length d.buf) (d.front + d.size)))) [
        | inl h ↦
            let straight =
              contents-slice nil d (wrap (length d.buf) (d.front + d.size)) (ground arith)
                (ground arith) in
            rw (h, straight) (copy_all buf (contents nil d) (omega (arith, length-contents nil d)))
        | inr h ↦
            let back = wrap (length d.buf) (d.front + d.size) in
            let round = contents-round nil {d = d} back v (ground arith) (ground arith) in
            rw (h, ← round)
              (two_copies buf (drop d.front d.buf) (take back d.buf) _
                (ground (arith, length-drop d.front d.buf))
                (ground (arith, length-drop d.front d.buf, length-take back d.buf)))
      ]

  -- `ToSlice` returns the elements, from the front to the back, whatever the given slice held.
  pub to_slice_lem : (d : Deque A) (dst : List A) → IsValid d → to_slice nil d dst ≡ contents nil d
  unfolding to_slice
  to_slice_lem d dst v = elim (Bool-cases (d.size == 0)) [
    | inl h ↦ rw h (sym (segment-zero nil d.buf (length d.buf) d.front d.size (ground arith)))
    | inr h ↦ rw h (
        snapshot_into_lem d _ v (ground arith)
          (ground (arith, length-replicate d.size nil, length-take d.size dst)))
  ]

  pub reset_lem :
      (d : Deque A) → IsValid d → IsValid (reset nil d) × (contents nil (reset nil d) ≡ [])
  unfolding reset
  reset_lem d v = elim (Bool-cases (d.size == 0)) [
    | inl h ↦ rw h (v, segment-zero nil d.buf (length d.buf) d.front d.size (ground arith))
    | inr h ↦ elim (Bool-cases (leb (d.front + d.size) (length d.buf))) [
      | inl k ↦ rw (h, k) (record { front_in = omega arith; size_in = omega arith }, refl)
      | inr k ↦ rw (h, k) (record { front_in = omega arith; size_in = omega arith }, refl)
    ]
  ]
