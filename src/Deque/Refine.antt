-- ===== src/Deque/Refine.antt =====
-- A valid deque behaves as the list of its elements.
use cdnnow_test_golang.Shared.{
  ℕ, ◌≡◌, refl, sym, ap, ◌∙◌, List, [], ◌∷◌, ◌++◌, arith, length, get_elem?, set_elem?, ltb, ltb→lt,
  ltb→le, take_all, set_elem?-some, Option, none, some, true, Bool-cases, Option-cases, inl, inr,
  ◌==◌, pos, negsuc,
}
use cdnnow_test_golang.Deque.{
  Deque, len, new_deque_from, empty, front_elem, back_elem, at, set_at, reserve, pop_front,
  pop_back,
}
use cdnnow_test_golang.Deque.Valid.{IsValid, contents, length-contents, contents-slice}
use cdnnow_test_golang.Deque.Grow.{reserve-Keeps, segment-zero}
use cdnnow_test_golang.Deque.Ops.{push_back_lem, push_front_lem, pop_front_lem, pop_back_lem}
use cdnnow_test_golang.Deque.Access.{at_lem, set_at_lem, set_at_beyond, to_slice_lem, reset_lem}
use cdnnow_test_golang.Deque.Spec
use cdnnow_test_golang.Deque.Spec.{
  Call, len_of, is_empty, front_of, back_of, take_front, take_back, clear, add_back, add_front,
  read_at, write_at, grow_by, slice_into, Reply, unsnoc, uncons, extend, is_nil, list_set_at,
  list_at, list_grow,
}
use cdnnow_test_golang.Deque.Client.{step, run}

module _ {ℓ} {A : Type ℓ} (nil : A) where
  -- Both panic, or both return the same reply and states that agree.
  pub data Agree : Option (Reply A × Deque A) → Option (Reply A × List A) → Type ℓ where
    both_panic : Agree none none
    both_return :
        (r : Reply A) (e : Deque A) (xs : List A)
        → IsValid e
        → contents nil e ≡ xs
        → Agree (some (r, e)) (some (r, xs))

  unsnoc-append : (xs : List A) (v : A) → unsnoc (xs ++ v ∷ []) ≡ some (v, xs)
  unfolding unsnoc extend
  unsnoc-append [] v = refl
  unsnoc-append (x ∷ xs) v = rw (unsnoc-append xs v)

  -- An empty deque panics on what needs an element.
  drained :
      (d : Deque A)
      → d.size ≡ 0
      → (contents nil d ≡ [])
        × (front_elem d ≡ none)
        × (back_elem d ≡ none)
        × (pop_front nil d ≡ none)
        × (pop_back nil d ≡ none)
  unfolding front_elem back_elem pop_front pop_back
  drained d e = (segment-zero nil d.buf (length d.buf) d.front d.size e, rw h, rw h, rw h, rw h)
    where
      h : (d.size == 0) ≡ true
      h = ground arith

  at_front :
      (d : Deque A)
      → IsValid d
      → Agree (step nil d front_of) (Spec.step (contents nil d) front_of)
        × Agree (step nil d take_front) (Spec.step (contents nil d) take_front)
  unfolding step Spec.step
  at_front d v = elim (Bool-cases (d.size == 0)) [
    | inl h ↦
        let (c, f, _, p, _) = drained d (ground arith) in
        let u : uncons (contents nil d) ≡ none = ap uncons c in
        rw (u, f, p) (both_panic, both_panic)
    | inr h ↦
        let (x, e, f, p, w, c) = pop_front_lem nil d v (ground arith) in
        let u : uncons (contents nil d) ≡ some (x, contents nil e) = ap uncons c in
        rw (u, f, p) (both_return _ d _ v refl, both_return _ e _ w refl)
  ]

  at_back :
      (d : Deque A)
      → IsValid d
      → Agree (step nil d back_of) (Spec.step (contents nil d) back_of)
        × Agree (step nil d take_back) (Spec.step (contents nil d) take_back)
  unfolding step Spec.step
  at_back d v = elim (Bool-cases (d.size == 0)) [
    | inl h ↦
        let (c, _, f, _, p) = drained d (ground arith) in
        let u : unsnoc (contents nil d) ≡ none = ap unsnoc c in
        rw (u, f, p) (both_panic, both_panic)
    | inr h ↦
        let (x, e, f, p, w, c) = pop_back_lem nil d v (ground arith) in
        let u : unsnoc (contents nil d) ≡ some (x, contents nil e) =
          ap unsnoc c ∙ unsnoc-append (contents nil e) x in
        rw (u, f, p) (both_return _ d _ v refl, both_return _ e _ w refl)
  ]

  read_agrees :
      (d : Deque A) (i : ℕ)
      → IsValid d
      → Agree (step nil d (read_at (pos i))) (Spec.step (contents nil d) (read_at (pos i)))
  unfolding step Spec.step
  read_agrees d i v = rw (at_lem nil d i v) (elim (Option-cases (get_elem? (contents nil d) i)) [
    | inl e ↦ rw e both_panic
    | inr (x, e) ↦ rw e (both_return _ d _ v refl)
  ])

  write_agrees :
      (d : Deque A) (i : ℕ) (x : A)
      → IsValid d
      → Agree (step nil d (write_at (pos i) x)) (Spec.step (contents nil d) (write_at (pos i) x))
  unfolding step Spec.step
  write_agrees d i x v = elim (Bool-cases (ltb i d.size)) [
    | inl h ↦
        let (e, p, w, c) = set_at_lem nil d i x v (ltb→lt _ _ h) in
        let u =
          set_elem?-some (contents nil d) i x
            (omega (arith, ltb→lt _ _ h, length-contents nil d)) in
        rw (p, u) (both_return _ e _ w c)
    | inr h ↦
        let u : set_elem? (contents nil d) i x ≡ none = rw (length-contents nil d, h) refl in
        rw (set_at_beyond nil d i x (ltb→le _ _ h), u) both_panic
  ]

  grow_agrees :
      (d : Deque A) (n : ℕ)
      → IsValid d
      → Agree (step nil d (grow_by (pos n))) (Spec.step (contents nil d) (grow_by (pos n)))
  unfolding step Spec.step
  grow_agrees d n v =
      let (e, p, c, w, _, _) = reserve-Keeps nil d n v in rw p (both_return _ e _ w c)

  empty-contents : (d : Deque A) → empty d ≡ is_nil (contents nil d)
  unfolding empty is_nil
  empty-contents d = nil_of_size (contents nil d) d.size (length-contents nil d)
    where
      nil_of_size : (xs : List A) (n : ℕ) → length xs ≡ n → (n == 0) ≡ is_nil xs
      nil_of_size [] n e = ground arith
      nil_of_size (x ∷ xs) n e = ground arith

  -- Each call of a valid deque agrees with the call of the list of its elements.
  step_agrees :
      (d : Deque A) (c : Call A) → IsValid d → Agree (step nil d c) (Spec.step (contents nil d) c)
  unfolding step Spec.step len at set_at reserve
  step_agrees d len_of v = rw (length-contents nil d) (both_return _ d _ v refl)
  step_agrees d is_empty v = rw (empty-contents d) (both_return _ d _ v refl)
  step_agrees d front_of v = (at_front d v).0
  step_agrees d back_of v = (at_back d v).0
  step_agrees d take_front v = (at_front d v).1
  step_agrees d take_back v = (at_back d v).1
  step_agrees d clear v = both_return _ _ _ (reset_lem nil d v).0 (reset_lem nil d v).1
  step_agrees d (add_back x) v =
      let (e, p, h, q) = push_back_lem nil d x v in rw p (both_return _ e _ h q)
  step_agrees d (add_front x) v =
      let (e, p, h, q) = push_front_lem nil d x v in rw p (both_return _ e _ h q)
  step_agrees d (read_at (pos i)) v = read_agrees d i v
  step_agrees d (read_at (negsuc i)) v = both_panic
  step_agrees d (write_at (pos i) x) v = write_agrees d i x v
  step_agrees d (write_at (negsuc i) x) v = both_panic
  step_agrees d (grow_by (pos n)) v = grow_agrees d n v
  step_agrees d (grow_by (negsuc n)) v = both_panic
  step_agrees d (slice_into dst) v = rw (to_slice_lem nil d dst v) (both_return _ d _ v refl)

  -- No sequence of calls tells a valid deque from the list of its elements: the replies are the
  -- same, and so is whether a call panics.
  pub run_refines :
      (d : Deque A) (cs : List (Call A)) → IsValid d → run nil d cs ≡ Spec.run (contents nil d) cs
  unfolding run Spec.run
  run_refines d [] v = refl
  run_refines d (c ∷ cs) v =
      go (step nil d c) (Spec.step (contents nil d) c) (step_agrees d c v) refl refl
        (λ e w. run_refines e cs w)
    where
      go :
          (a : Option (Reply A × Deque A)) (b : Option (Reply A × List A))
          → Agree a b
          → step nil d c ≡ a
          → Spec.step (contents nil d) c ≡ b
          → ((e : Deque A) → IsValid e → run nil e cs ≡ Spec.run (contents nil e) cs)
          → run nil d (c ∷ cs) ≡ Spec.run (contents nil d) (c ∷ cs)
      go a b both_panic p q ih = rw (p, q, run, Spec.run) refl
      go a b (both_return r e xs w h) p q ih = rw (p, q, run, Spec.run) (rw (ih e w, h) refl)

  -- `NewDequeFrom` holds the elements of its slice, in order.
  pub new_deque_from_lem :
      (xs : List A) → IsValid (new_deque_from xs) × (contents nil (new_deque_from xs) ≡ xs)
  unfolding new_deque_from
  new_deque_from_lem xs = (record { front_in = omega arith; size_in = omega arith }, held)
    where
      held : contents nil (record { buf = xs; front = 0; size = length xs }) ≡ xs
      held =
          sym (
            contents-slice nil (record { buf = xs; front = 0; size = length xs }) (length xs)
              (omega arith) (omega arith))
          ∙ take_all _ xs (omega arith)
