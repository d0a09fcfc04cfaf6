-- ===== src/Deque/Grow.antt =====
-- `grow` and its callers: the buffer gets larger, and the elements stay.
use cdnnow_test_golang.Shared.{
  ℕ, zero, suc, ◌+◌, ◌-◌, ◌*◌, ◌^◌, ◌≤◌, ◌<◌, max, ◌≡◌, refl, sym, ap, ◌∙◌, List, [], ◌++◌, arith,
  length, replicate, ltb, ◌==◌, length-replicate, length-append, some, pos, take-append, Bool-cases,
  inl, inr, if◌then◌else◌,
}
use cdnnow_test_golang.Deque.{Deque, int_sum, moved, grow, ensure_room, reserve}
use cdnnow_test_golang.Deque.Segment.{segment, segment-slice}
use cdnnow_test_golang.Deque.Valid.{IsValid, contents, length-contents, moved_lem}

module _ {ℓ} {A : Type ℓ} (nil : A) where
  pub segment-zero : (buf : List A) (cap p n : ℕ) → n ≡ 0 → segment nil buf cap p n ≡ []
  segment-zero buf cap p zero h = refl
  segment-zero buf cap p (suc n) h = absurd (omega arith)

  -- What a reallocation to `cap` slots has to do.
  pub record Grown (d e : Deque A) (cap : ℕ) : Type ℓ where
    pub same : contents nil e ≡ contents nil d
    pub valid : IsValid e
    pub size_same : e.size ≡ d.size
    pub new_cap : length e.buf ≡ cap

  relocated :
      (d : Deque A) (cap : ℕ)
      → IsValid d
      → 0 < length d.buf
      → d.size ≤ cap
      → 0 < cap
      → Grown d (record d { buf = moved nil d cap; front = 0 }) cap
  relocated d cap v p h q = record {
    same =
        segment-slice nil (moved nil d cap) _ 0 d.size refl (omega (arith, len))
        ∙ (rw fresh (take-append (contents nil d) _ d.size (sym (length-contents nil d))));
    valid = record { front_in = omega (arith, len); size_in = omega (arith, len) };
    size_same = refl;
    new_cap = len;
  }
    where
      fresh : moved nil d cap ≡ contents nil d ++ replicate (cap - d.size) nil
      fresh = moved_lem nil d cap (cap - d.size) v p (omega arith)

      len : length (moved nil d cap) ≡ cap
      len = omega (
        arith,
        ap length fresh,
        length-append (contents nil d) (replicate (cap - d.size) nil),
        length-contents nil d,
        length-replicate (cap - d.size) nil,
      )

  -- The capacity that `grow` gives.
  abbrev pub new_capacity : Deque A → ℕ → ℕ
  new_capacity d need =
      if length d.buf == 0 then max need 16 else max (length d.buf * 2) (int_sum d.size need)

  pub grow_lem :
      (d : Deque A) (need : ℕ) → IsValid d → Grown d (grow nil d need) (new_capacity d need)
  unfolding grow
  grow_lem d need v = elim (Bool-cases (length d.buf == 0)) [
    | inl h ↦
        let e = length-replicate (max need 16) nil in
        rw h (record {
          same =
              segment-zero (replicate (max need 16) nil) _ d.front d.size (ground arith)
              ∙ sym (segment-zero d.buf (length d.buf) d.front d.size (ground arith));
          valid = ground (arith, e);
          size_same = refl;
          new_cap = e;
        })
    | inr h ↦ rw h (
        relocated d (max (length d.buf * 2) (int_sum d.size need)) v (ground arith) (omega arith)
          (ground arith))
  ]

  -- `PushBack` and `PushFront` have a free slot to write.
  pub record Room (d e : Deque A) : Type ℓ where
    pub same : contents nil e ≡ contents nil d
    pub valid : IsValid e
    pub size_same : e.size ≡ d.size
    pub free : e.size < length e.buf

  pub ensure_room_lem : (d : Deque A) → IsValid d → Room d (ensure_room nil d)
  unfolding ensure_room
  ensure_room_lem d v = elim (Bool-cases (d.size == length d.buf)) [
    | inl h ↦
        let g = grow_lem d 1 v in
        rw h (record {
          same = g.same;
          valid = g.valid;
          size_same = g.size_same;
          free = ground (arith, g.size_same, g.new_cap);
        })
    | inr h ↦ rw h (record { same = refl; valid = v; size_same = refl; free = ground arith })
  ]

  -- `Grow(n)` at `n ≥ 0` keeps the elements, and reallocates only if there was no room.
  pub reserve-Keeps :
      (d : Deque A) (n : ℕ)
      → IsValid d
      → (e : Deque A) × (reserve nil d (pos n) ≡ some e)
        × (contents nil e ≡ contents nil d)
        × IsValid e
        × (d.size + n ≤ length d.buf → e ≡ d)
        × (d.size + n < 2 ^ 63 → e.size + n ≤ length e.buf)
  unfolding reserve
  reserve-Keeps d n v = elim (Bool-cases (ltb (length d.buf - d.size) n)) [
    | inl h ↦
        let g = grow_lem d n v in
        (
          grow nil d n,
          rw h,
          g.same,
          g.valid,
          λ k. absurd (ground arith),
          λ k. ground (arith, g.size_same, g.new_cap),
        )
    | inr h ↦ (d, rw h, refl, v, λ k. refl, λ k. ground arith)
  ]

  -- `Grow(n)` at `n ≥ 0`, with room for `n` more elements within Go's `int`, leaves room for them,
  -- keeps those that the deque holds, and reallocates only if there was no such room.
  pub reserve_lem :
      (d : Deque A) (n : ℕ)
      → IsValid d
      → d.size + n < 2 ^ 63
      → (e : Deque A) × (reserve nil d (pos n) ≡ some e)
        × (contents nil e ≡ contents nil d)
        × IsValid e
        × (e.size + n ≤ length e.buf)
        × (d.size + n ≤ length d.buf → e ≡ d)
  reserve_lem d n v fits =
      let (e, p, c, w, same, room) = reserve-Keeps d n v in (e, p, c, w, room fits, same)
