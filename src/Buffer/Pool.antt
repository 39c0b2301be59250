-- ===== src/Buffer/Pool.antt =====
-- The indices that the send pool of src/core/buffer.cc may hand out.
use jdocs.Base.{
  ℕ, ◌+◌, ◌*◌, ◌%◌, ◌<◌, ◌≤◌, ◌≡◌, refl, ◌∙◌, Bool, true, false, [], ◌∷◌, ◌⊎◌, inl, inr, Bool-cases,
  Option, none, some, arith, length, length-append, ◌==◌, ==_iff, if◌then◌else◌,
}
use jdocs.Bitmap.Between.{inside}
use jdocs.Bitmap.Valid.{IsValid, taken}
use jdocs.Bitmap.Ranges.{remove_index_range}
use jdocs.Bitmap.Ranged.{Ranged, remove_index_range-Ranged}
use jdocs.Buffer.Defs.{
  BufferPool, buffer_entries_max, buffer_count, add_send_block, was_accepted, alloc_send_buffers,
}

-- The send pool holds whole blocks, and no index beyond them is free.
pub record IsPool (p : BufferPool) : Type 0 where
  pub valid : IsValid p.available
  pub size : p.available.bit_count ≡ buffer_entries_max
  pub blocks : p.send_buffer_count ≡ length p.send_pool * buffer_count
  pub most : p.send_buffer_count ≤ buffer_entries_max
  pub locked :
      (j : ℕ) → p.send_buffer_count ≤ j → j < buffer_entries_max → taken p.available j ≡ true

-- The pool `q` is `p`, with a block more if there is room and memory for it.
pub data Grown (p : BufferPool) (memory accepted : Option ℕ) (q : BufferPool) : Type 0 where
  same :
      q ≡ p
      → (p.send_buffer_count ≡ buffer_entries_max)
        ⊎ ((memory ≡ none) ⊎ (was_accepted accepted ≡ false))
      → Grown p memory accepted q
  grown :
      IsPool q
      → q.send_buffer_count ≡ p.send_buffer_count + buffer_count
      → ((j : ℕ)
          → taken q.available j
            ≡ (if inside p.send_buffer_count buffer_count j then false else taken p.available j))
      → Grown p memory accepted q

room_left :
    (p : BufferPool)
    → IsPool p
    → (p.send_buffer_count == buffer_entries_max) ≡ false
    → p.send_buffer_count + buffer_count ≤ buffer_entries_max
room_left p h room = ground (arith, h.most, h.blocks)

behind_block :
    (s j : ℕ) (b : Bool) → s + buffer_count ≤ j → (if inside s buffer_count j then false else b) ≡ b
behind_block s j b h = ground arith

unlocked :
    (p : BufferPool) (memory accepted : Option ℕ) (base : ℕ)
    → IsPool p
    → (p.send_buffer_count == buffer_entries_max) ≡ false
    → Ranged false p.available p.send_buffer_count buffer_count
        (remove_index_range p.available p.send_buffer_count buffer_count)
    → Grown p memory accepted (add_send_block p base)
unfolding add_send_block
unlocked p memory accepted base h room (Ranged.refused e (inl none_asked)) =
    absurd (omega (arith, none_asked))
unlocked p memory accepted base h room (Ranged.refused e (inr beyond)) =
    absurd (omega (arith, beyond, h.size, room_left p h room))
unlocked p memory accepted base h room (Ranged.done more low o) =
    let fits = room_left p h room in
    let count : (p.send_buffer_count + buffer_count) % 65536 ≡ p.send_buffer_count + buffer_count =
      omega (arith, fits) in
    grown
      (record {
        valid = o.valid;
        size = o.same_count ∙ h.size;
        blocks = omega (arith, count, h.blocks, length-append p.send_pool (base ∷ []));
        most = omega (arith, count, fits);
        locked = λ j high lt.
            o.written j
            ∙ behind_block p.send_buffer_count j (taken p.available j) (omega (arith, high, count))
            ∙ h.locked j (omega (arith, high, count)) lt;
      })
      count o.written

pub alloc_send_buffers-Grown :
    (p : BufferPool) (memory accepted : Option ℕ)
    → IsPool p
    → Grown p memory accepted (alloc_send_buffers p memory accepted)
unfolding alloc_send_buffers
alloc_send_buffers-Grown p none accepted h =
    elim (Bool-cases (p.send_buffer_count == buffer_entries_max)) [
      | inl full ↦ rw full (same refl (inr (inl refl)))
      | inr room ↦ rw room (same refl (inr (inl refl)))
    ]
alloc_send_buffers-Grown p (some base) accepted h =
    elim (Bool-cases (p.send_buffer_count == buffer_entries_max)) [
      | inl full ↦ rw full (same refl (inl ((==_iff _ _).0 full)))
      | inr room ↦ elim (Bool-cases (was_accepted accepted)) [
        | inr denied ↦ rw (room, denied) (same refl (inr (inr denied)))
        | inl granted ↦
            rw (room, granted)
              (unlocked p (some base) accepted base h room (
                remove_index_range-Ranged p.available p.send_buffer_count buffer_count h.valid
                  (omega (arith, h.most))))
      ]
    ]
