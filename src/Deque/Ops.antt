-- ===== src/Deque/Ops.antt =====
-- What each operation at an end does to the elements, from any valid deque.
use cdnnow_test_golang.Shared.{
  ℕ, ◌+◌, ◌-◌, ◌≡◌, ◌≢◌, refl, sym, ap, ◌∙◌, List, [], ◌∷◌, ◌++◌, arith, length, set, get_or, ◌==◌,
  if◌then◌else◌, length-set, set_elem?-some, get_elem?-eq-get_or, some, false,
}
use cdnnow_test_golang.Deque.{
  Deque, wrap, ensure_room, push_back, push_front, pop_front, pop_back, front_elem, back_elem,
}
use cdnnow_test_golang.Deque.Valid.{IsValid, contents}
use cdnnow_test_golang.Deque.Grow.{Room, ensure_room_lem}
use cdnnow_test_golang.Deque.Segment.{segment, segment-set_ne}
use cdnnow_test_golang.Deque.Ends.{
  segment-step, segment-last, segment-push_front, segment-push_back,
}

module _ {ℓ} {A : Type ℓ} (nil : A) where
  -- `contents` after a write, over the length of the buffer before it.
  contents-set :
      (buf : List A) (i : ℕ) (v : A) (p n : ℕ)
      → contents nil (record { buf = set buf i v; front = p; size = n })
        ≡ segment nil (set buf i v) (length buf) p n
  contents-set buf i v p n = ap (λ k. segment nil (set buf i v) k p n) (length-set buf i v)

  pub push_back_lem :
      (d : Deque A) (v : A)
      → IsValid d
      → (e : Deque A) × (push_back nil d v ≡ some e)
        × IsValid e
        × (contents nil e ≡ contents nil d ++ v ∷ [])
  unfolding push_back
  push_back_lem d v h = (
    record e { buf = set e.buf k v; size = e.size + 1 },
    rw (set_elem?-some e.buf k v (ground (arith, r.free, r.valid))),
    ground (arith, length-set e.buf k v, r.free, r.valid),
    contents-set e.buf k v e.front (e.size + 1)
        ∙ segment-push_back nil e.buf (length e.buf) k e.front e.size (e.size + 1) v refl
            (omega (arith, r.free, r.valid)) r.free refl (omega arith)
        ∙ ap (λ xs. xs ++ v ∷ []) r.same,
  )
    where
      e : Deque A
      e = ensure_room nil d

      r : Room nil d e
      r = ensure_room_lem nil d h

      k : ℕ
      k = wrap (length e.buf) (e.front + e.size)

  pub push_front_lem :
      (d : Deque A) (v : A)
      → IsValid d
      → (e : Deque A) × (push_front nil d v ≡ some e)
        × IsValid e
        × (contents nil e ≡ v ∷ contents nil d)
  unfolding push_front
  push_front_lem d v h = (
    record { buf = set e.buf k v; front = k; size = e.size + 1 },
    rw (set_elem?-some e.buf k v (ground (arith, r.free, r.valid))),
    ground (arith, length-set e.buf k v, r.free, r.valid),
    contents-set e.buf k v k (e.size + 1)
        ∙ segment-push_front nil e.buf (length e.buf) k e.front e.size (e.size + 1) v refl
            (ground (arith, r.free, r.valid)) r.free (omega arith) (ground (arith, r.free, r.valid))
        ∙ ap (◌∷◌ v) r.same,
  )
    where
      e : Deque A
      e = ensure_room nil d

      r : Room nil d e
      r = ensure_room_lem nil d h

      k : ℕ
      k = if e.front == 0 then length e.buf - 1 else e.front - 1

  pub pop_front_lem :
      (d : Deque A)
      → IsValid d
      → d.size ≢ 0
      → (v : A) × (e : Deque A) × (front_elem d ≡ some v)
        × (pop_front nil d ≡ some (v, e))
        × IsValid e
        × (contents nil d ≡ v ∷ contents nil e)
  unfolding pop_front
  pop_front_lem d h ne = (
    v,
    record { buf = set d.buf d.front nil; front = p; size = d.size - 1 },
    got,
    rw (got, set_elem?-some d.buf d.front nil (omega arith)),
    ground (arith, length-set d.buf d.front nil),
    segment-step nil d.buf (length d.buf) d.front p (d.size - 1) d.size (omega arith) (omega arith)
          (omega arith) (ground arith)
        ∙ ap (◌∷◌ v) (
            sym (
              contents-set d.buf d.front nil p (d.size - 1)
              ∙ segment-set_ne nil d.buf (length d.buf) d.front nil p (d.size - 1)
                  (λ j lo hi. ground arith))),
  )
    where
      v : A
      v = get_or d.buf d.front nil

      p : ℕ
      p = if d.front + 1 == length d.buf then 0 else d.front + 1

      got : front_elem d ≡ some v
      got = ground (arith, get_elem?-eq-get_or d.buf d.front nil)

  pub pop_back_lem :
      (d : Deque A)
      → IsValid d
      → d.size ≢ 0
      → (v : A) × (e : Deque A) × (back_elem d ≡ some v)
        × (pop_back nil d ≡ some (v, e))
        × IsValid e
        × (contents nil d ≡ contents nil e ++ v ∷ [])
  unfolding pop_back
  pop_back_lem d h ne = (
    v,
    record d { buf = set d.buf k nil; size = d.size - 1 },
    got,
    rw (got, set_elem?-some d.buf k nil (ground arith)),
    ground (arith, length-set d.buf k nil),
    segment-last nil d.buf (length d.buf) k d.front (d.size - 1) d.size (ground arith) (omega arith)
        ∙ ap (λ xs. xs ++ v ∷ [])
            (sym (
              contents-set d.buf k nil d.front (d.size - 1)
              ∙ segment-set_ne nil d.buf (length d.buf) k nil d.front (d.size - 1)
                  (λ j lo hi. ground arith))),
  )
    where
      k : ℕ
      k = wrap (length d.buf) (d.front + d.size - 1)

      v : A
      v = get_or d.buf k nil

      held : (d.size == 0) ≡ false
      held = ground arith

      got : back_elem d ≡ some v
      got = rw (held, get_elem?-eq-get_or d.buf k nil (ground arith))
