-- ===== src/Deque.antt =====
-- internal/queue/queue.go: a deque on a ring buffer, each method as the function of its name.
-- A method that changes the deque returns the new one; `none` is a panic. Sizes and positions are
-- natural numbers: no sum of two of them comes near the limit of Go's 64-bit `int`, since each is
-- at most the length of a slice that fits in memory. An index or count that may be negative is ℤ.
pub mod Segment
pub mod Valid
pub mod Grow
pub mod Ends
pub mod Spec
pub mod Ops
pub mod Access
pub mod Client
pub mod Refine
mod Tests
use cdnnow_test_golang.Shared.{
  ℕ, ◌+◌, ◌-◌, ◌*◌, ◌^◌, min, max, Bool, Option, none, some, List, [], ◌∷◌, ◌++◌, ltb, leb, ◌==◌,
  if◌then◌else◌, ◌>>=◌, length, get_elem?, set_elem?, take, drop, replicate, slice, copy, splice, ℤ,
  pos, negsuc,
}

pub record Deque {ℓ} (A : Type ℓ) : Type ℓ where
  pub buf : List A
  pub front : ℕ
  pub size : ℕ

-- `if pos >= len(d.buf) { pos -= len(d.buf) }`
abbrev pub wrap : ℕ → ℕ → ℕ
wrap n i = if leb n i then i - n else i

-- The sum of two numbers that an `int` can hold. One that wraps is negative, and stands as 0: it is
-- compared with a positive number only.
abbrev pub int_sum : ℕ → ℕ → ℕ
int_sum a b = if ltb (a + b) (2 ^ 63) then a + b else 0

module _ {ℓ} {A : Type ℓ} where
  unfoldable pub len : Deque A → ℕ
  len d = d.size

  unfoldable pub empty : Deque A → Bool
  empty d = d.size == 0

  unfoldable pub front_elem : Deque A → Option A
  front_elem d = if d.size == 0 then none else get_elem? d.buf d.front

  unfoldable pub back_elem : Deque A → Option A
  back_elem d =
      if d.size == 0 then none else get_elem? d.buf (wrap (length d.buf) (d.front + d.size - 1))

  -- The test that `At` and `Set` make, and the position in the buffer.
  unfoldable pub position : Deque A → ℤ → Option ℕ
  position d (negsuc i) = none
  position d (pos i) = if leb d.size i then none else some (wrap (length d.buf) (d.front + i))

  unfoldable pub at : Deque A → ℤ → Option A
  unfolding position
  at d i = do p ← position d i; get_elem? d.buf p

  unfoldable pub set_at : Deque A → ℤ → A → Option (Deque A)
  unfolding position
  set_at d i v = do p ← position d i; buf ← set_elem? d.buf p v; some (record d { buf = buf })

  -- `NewDequeFrom` takes the slice over.
  unfoldable pub new_deque_from : List A → Deque A
  new_deque_from xs = record { buf = xs; front = 0; size = length xs }

-- The code below fills with the zero value of the element type.
module _ {ℓ} {A : Type ℓ} (nil : A) where
  -- The `newBuf` of `grow`, filled from the old buffer.
  unfoldable pub moved : Deque A → ℕ → List A
  moved d cap =
      if leb (d.front + d.size) (length d.buf)
      then copy (replicate cap nil) (slice d.buf d.front (d.front + d.size))
      else (let n = length d.buf - d.front in
          let fst = copy (replicate cap nil) (drop d.front d.buf) in
          take n fst ++ copy (drop n fst) (take (d.size - n) d.buf))

  -- `grow` always reallocates.
  unfoldable pub grow : Deque A → ℕ → Deque A
  unfolding moved
  grow d need =
      if length d.buf == 0
      then record d { buf = replicate (max need 16) nil }
      else record d { buf = moved d (max (length d.buf * 2) (int_sum d.size need)); front = 0 }

  -- `Grow`
  unfoldable pub reserve : Deque A → ℤ → Option (Deque A)
  reserve d (negsuc n) = none
  reserve d (pos n) = if ltb (length d.buf - d.size) n then some (grow d n) else some d

  -- `if d.size == len(d.buf) { d.grow(1) }`
  unfoldable pub ensure_room : Deque A → Deque A
  ensure_room d = if d.size == length d.buf then grow d 1 else d

  unfoldable pub push_back : Deque A → A → Option (Deque A)
  push_back d v = do
    let e = ensure_room d
    buf ← set_elem? e.buf (wrap (length e.buf) (e.front + e.size)) v
    some (record e { buf = buf; size = e.size + 1 })

  unfoldable pub push_front : Deque A → A → Option (Deque A)
  push_front d v = do
    let e = ensure_room d
    let front = if e.front == 0 then length e.buf - 1 else e.front - 1
    buf ← set_elem? e.buf front v
    some (record { buf = buf; front = front; size = e.size + 1 })

  unfoldable pub pop_front : Deque A → Option (A × Deque A)
  unfolding front_elem
  pop_front d = do
    v ← front_elem d
    buf ← set_elem? d.buf d.front nil
    let front = if d.front + 1 == length d.buf then 0 else d.front + 1
    some (v, record { buf = buf; front = front; size = d.size - 1 })

  unfoldable pub pop_back : Deque A → Option (A × Deque A)
  unfolding back_elem
  pop_back d = do
    v ← back_elem d
    buf ← set_elem? d.buf (wrap (length d.buf) (d.front + d.size - 1)) nil
    some (v, record d { buf = buf; size = d.size - 1 })

  -- The copies of `ToSlice` into `buf`, which has the deque's size.
  unfoldable pub snapshot_into : Deque A → List A → List A
  snapshot_into d buf =
      let back = wrap (length d.buf) (d.front + d.size) in
      if ltb d.front back
      then copy buf (slice d.buf d.front back)
      else (let n = min (length buf) (length (drop d.front d.buf)) in
          let fst = copy buf (drop d.front d.buf) in
          take n fst ++ copy (drop n fst) (take back d.buf))

  -- `ToSlice` into `dst`, given as all that its capacity holds.
  unfoldable pub to_slice : Deque A → List A → List A
  to_slice d dst =
      if d.size == 0
      then []
      else snapshot_into d
          (if ltb (length dst) d.size then replicate d.size nil else take d.size dst)

  -- `clear(d.buf[d.front:])`, then `clear(d.buf[:d.front+d.size-len(d.buf)])`
  unfoldable pub cleared_round : Deque A → List A
  cleared_round d =
      let n = d.front + d.size - length d.buf in
      let tail = splice d.buf d.front (length d.buf) (replicate (length d.buf - d.front) nil) in
      splice tail 0 n (replicate n nil)

  unfoldable pub reset : Deque A → Deque A
  unfolding cleared_round
  reset d =
      if d.size == 0
      then d
      else (if leb (d.front + d.size) (length d.buf)
          then record {
            buf = splice d.buf d.front (d.front + d.size) (replicate d.size nil);
            front = 0;
            size = 0;
          }
          else record { buf = cleared_round d; front = 0; size = 0 })
