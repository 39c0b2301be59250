-- ===== src/Buffer/Send.antt =====
-- Send buffers of src/core/buffer.cc, from the request for one to its return.
use jdocs.Base.{
  ℕ, ◌+◌, ◌<◌, ◌≡◌, refl, sym, ap, ◌∙◌, subst, Bool, true, false, ◌⊎◌, inl, inr, Bool-cases, Option,
  none, arith, ltb, leb, ◌==◌, ==_iff, if◌then◌else◌,
}
use jdocs.Bitmap.Defs.{BitMap, get_and_set_index, no_index}
use jdocs.Bitmap.Between.{inside, before, within}
use jdocs.Bitmap.Valid.{
  IsValid, taken, Written, Claimed, Outcome, get_and_set_index-Claimed, remove_index-Outcome,
}
use jdocs.Buffer.Defs.{
  BufferPool, buffer_entries_max, buffer_count, was_accepted, alloc_send_buffers, grow_and_retry,
  get_send_buffer_index, replenish_send_buffer,
}
use jdocs.Buffer.Pool.{IsPool, Grown, alloc_send_buffers-Grown}

-- The reasons for a pool not to grow.
abbrev pub IsStuck : BufferPool → (memory accepted : Option ℕ) → Type 0
IsStuck p memory accepted =
    (p.send_buffer_count ≡ buffer_entries_max) ⊎ ((memory ≡ none) ⊎ (was_accepted accepted ≡ false))

-- What GetSendBufferIndex returns and leaves.
pub data Obtained (p : BufferPool) (memory accepted : Option ℕ) (r : ℕ × BufferPool) : Type 0 where
  exhausted :
      r ≡ (no_index, p)
      → ((j : ℕ) → j < buffer_entries_max → taken p.available j ≡ true)
      → IsStuck p memory accepted
      → Obtained p memory accepted r
  obtained :
      r.0 < r.1.send_buffer_count
      → (r.0 < p.send_buffer_count → taken p.available r.0 ≡ false)
      → IsPool r.1
      → ((j : ℕ)
          → j < p.send_buffer_count
          → taken r.1.available j ≡ (if r.0 == j then true else taken p.available j))
      → taken r.1.available r.0 ≡ true
      → Obtained p memory accepted r

other : (i j : ℕ) (a b : Bool) → i < j → (if i == j then a else b) ≡ b
other i j a b h = ground arith

itself : (i : ℕ) (a b : Bool) → (if i == i then a else b) ≡ a
itself i a b = ground arith

-- One index below the size of the pool changes its state.
pub Written-IsPool :
    (p : BufferPool) (i : ℕ) (v : Bool) (c : BitMap)
    → IsPool p
    → i < p.send_buffer_count
    → Written p.available i v c
    → IsPool (record p { available = c })
Written-IsPool p i v c h low w = record {
  valid = w.valid;
  size = w.same_count ∙ h.size;
  blocks = h.blocks;
  most = h.most;
  locked = λ j high lt.
      w.written j
      ∙ other i j v (taken p.available j) (omega (arith, low, high))
      ∙ h.locked j high lt;
}

free_below :
    (p : BufferPool) (i : ℕ)
    → IsPool p
    → i < p.available.bit_count
    → taken p.available i ≡ false
    → i < p.send_buffer_count
free_below p i h low free = elim (Bool-cases (ltb i p.send_buffer_count)) [
  | inl below ↦ ground arith
  | inr high ↦ let locked = h.locked i (ground arith) (omega (arith, low, h.size)) in cc
]

first_try :
    (p : BufferPool) (memory accepted : Option ℕ) (r : ℕ × BitMap)
    → IsPool p
    → r.0 < p.available.bit_count
    → taken p.available r.0 ≡ false
    → Written p.available r.0 true r.1
    → Obtained p memory accepted (r.0, record p { available = r.1 })
first_try p memory accepted r h low free w =
    let below = free_below p r.0 h low free in
    obtained below (λ _. free) (Written-IsPool p r.0 true r.1 h below w) (λ j lt. w.written j)
      (w.written r.0 ∙ itself r.0 true (taken p.available r.0))

Grown-IsValid :
    (p q : BufferPool) (memory accepted : Option ℕ)
    → IsPool p
    → Grown p memory accepted q
    → IsValid q.available
Grown-IsValid p q memory accepted h (Grown.same e _) =
    subst (λ o. IsValid o.available) (sym e) h.valid
Grown-IsValid p q memory accepted h (Grown.grown hq _ _) = hq.valid

second_try :
    (p q : BufferPool) (memory accepted : Option ℕ) (r : ℕ × BitMap)
    → IsPool p
    → ((j : ℕ) → j < buffer_entries_max → taken p.available j ≡ true)
    → Grown p memory accepted q
    → Claimed q.available r
    → Obtained p memory accepted (r.0, record q { available = r.1 })
second_try p q memory accepted r h all (Grown.same e why) (Claimed.full e' _) =
    exhausted
      (ap {A = ℕ × BitMap} {B = ℕ × BufferPool} (λ s. (s.0, record q { available = s.1 })) e'
        ∙ ap {B = ℕ × BufferPool} (λ o. (no_index, o)) e)
      all why
second_try p q memory accepted r h all (Grown.same e why) (Claimed.claimed low free first w) =
    let size : q.available.bit_count ≡ buffer_entries_max =
      ap (λ o. o.available.bit_count) e ∙ h.size in
    let busy : taken q.available r.0 ≡ true =
      ap (λ o. taken o.available r.0) e ∙ all r.0 (omega (arith, low, size)) in
    cc
second_try p q memory accepted r h all (Grown.grown hq count bits) (Claimed.full _ busy) =
    let s = p.send_buffer_count in
    let fits : s < q.available.bit_count = omega (arith, hq.most, hq.size, count) in
    let next : s + 0 ≡ s = omega arith in
    let open_index : taken q.available s ≡ false =
      bits s
      ∙ ap (λ i. if inside s buffer_count i then false else taken p.available s) (sym next)
      ∙ within false (taken p.available s) s buffer_count 0 (omega arith) in
    let locked = busy s fits in cc
second_try p q memory accepted r h all (Grown.grown hq count bits)
      (Claimed.claimed low free first w) =
    let below = free_below q r.0 hq low free in
    let old : (j : ℕ) → j < p.send_buffer_count → taken q.available j ≡ taken p.available j =
      λ j lt. bits j ∙ before false (taken p.available j) p.send_buffer_count buffer_count j lt in
    obtained below (λ lt. sym (old r.0 lt) ∙ free) (Written-IsPool q r.0 true r.1 hq below w)
      (λ j lt. w.written j ∙ ap (λ b. if r.0 == j then true else b) (old j lt))
      (w.written r.0 ∙ itself r.0 true (taken q.available r.0))

not_none : (i : ℕ) → i < buffer_entries_max → (i == no_index) ≡ false
not_none i h = ground arith

retried :
    (p : BufferPool) (memory accepted : Option ℕ)
    → IsPool p
    → ((j : ℕ) → j < buffer_entries_max → taken p.available j ≡ true)
    → Obtained p memory accepted (grow_and_retry p memory accepted (no_index, p.available))
unfolding grow_and_retry
retried p memory accepted h all =
    let g = alloc_send_buffers-Grown p memory accepted h in
    let q = alloc_send_buffers p memory accepted in
    second_try p q memory accepted (get_and_set_index q.available) h all g
      (get_and_set_index-Claimed q.available (Grown-IsValid p q memory accepted h g))

after_search :
    (p : BufferPool) (memory accepted : Option ℕ) (r : ℕ × BitMap)
    → IsPool p
    → Claimed p.available r
    → Obtained p memory accepted (grow_and_retry p memory accepted r)
unfolding grow_and_retry
after_search p memory accepted r h (Claimed.full e all) =
    subst (λ s. Obtained p memory accepted (grow_and_retry p memory accepted s)) (sym e)
      (retried p memory accepted h (λ j lt. all j (omega (arith, lt, h.size))))
after_search p memory accepted r h (Claimed.claimed low free first w) =
    rw (not_none r.0 (omega (arith, low, h.size))) (first_try p memory accepted r h low free w)

-- On a good pool GetSendBufferIndex returns -1, with nothing changed, only if every index is taken and
-- the pool can not grow: it has its full size, or there is no memory, or the kernel refuses the block.
-- Otherwise it leaves a good pool in which the index that it returns lies in a block, was free if it lay
-- in an old one, is taken now, and no other index of the old blocks has changed.
pub get_send_buffer_index-Obtained :
    (p : BufferPool) (memory accepted : Option ℕ)
    → IsPool p
    → Obtained p memory accepted (get_send_buffer_index p memory accepted)
unfolding get_send_buffer_index
get_send_buffer_index-Obtained p memory accepted h =
    after_search p memory accepted (get_and_set_index p.available) h
      (get_and_set_index-Claimed p.available h.valid)

unchanged :
    (b : BitMap) (i j : ℕ) → taken b i ≡ false → taken b j ≡ (if i == j then false else taken b j)
unchanged b i j free = elim (Bool-cases (i == j)) [
  | inl here ↦ rw here (ap (taken b) (sym ((==_iff i j).0 here)) ∙ free)
  | inr there ↦ rw there refl
]

-- What ReplenishSendBuffer does with an index that lies in a block: the pool stays good, and the index is
-- free, whatever it was, and no other has changed.
pub replenish_send_buffer-frees :
    (p : BufferPool) (bidx : ℕ)
    → IsPool p
    → bidx < p.send_buffer_count
    → IsPool (replenish_send_buffer p bidx)
      × ((j : ℕ)
          → taken (replenish_send_buffer p bidx).available j
            ≡ (if bidx == j then false else taken p.available j))
unfolding replenish_send_buffer
replenish_send_buffer-frees p bidx h low =
    let small : leb buffer_entries_max bidx ≡ false = ground (arith, h.most) in
    rw small (elim (remove_index-Outcome p.available bidx h.valid) [
      | Outcome.refused e why ↦ (
        subst (λ r. IsPool (record p { available = r.1 })) (sym e) h,
        λ j.
            ap (λ r. taken r.1 j) e
            ∙ unchanged p.available bidx j (why (omega (arith, low, h.size, h.most))),
      )
      | Outcome.done e lt busy w ↦ (Written-IsPool p bidx false _ h low w, w.written)
    ])
