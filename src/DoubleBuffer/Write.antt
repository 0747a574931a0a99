-- ===== src/DoubleBuffer/Write.antt =====
-- `double_buffer_write` with nobody else about.
use libvidcap.Base.{
  ℕ, ◌+◌, ◌%◌, ◌^◌, ◌<◌, ◌≡◌, arith, some, inl, inr, pos, int32, int32_lem, +ℤ_pos, ◌+ℤ◌,
}
use libvidcap.DoubleBuffer.{DoubleBuffer, even, odd, write, note_too_far, write_at}
use libvidcap.DoubleBuffer.Valid.{
  Valid, place, write_slot, place_even, place_odd, parity, record_frame,
}

note_too_far-Valid :
    {A : Type 0} {db : DoubleBuffer A} {n r : ℕ} {history : ℕ → A}
    → Valid db n r history
    → Valid (note_too_far db) n r history
unfolding note_too_far
note_too_far-Valid v = ground arith

module _ {A : Type 0} {db : DoubleBuffer A} {n r : ℕ} {history : ℕ → A} (x : A)
    (v : Valid db n r history) where
  next_count : n + 3 < 2 ^ 31 → int32 (db.write_count +ℤ pos 1) ≡ pos (n + 1)
  next_count h = rw (v.write_eq, +ℤ_pos n 1) (int32_lem (pos (n + 1)) (omega arith))

  write_at_even :
      n + 3 < 2 ^ 31 → n % 2 ≡ 0 → Valid (write_at even x db) (n + 1) r (record_frame history n x)
  unfolding write_at
  write_at_even h e = ground (arith, next_count h)

  write_at_odd :
      n + 3 < 2 ^ 31 → n % 2 ≡ 1 → Valid (write_at odd x db) (n + 1) r (record_frame history n x)
  unfolding write_at
  write_at_odd h e = ground (arith, next_count h)

  write_at-Valid :
      n + 3 < 2 ^ 31 → Valid (write_at (place n) x db) (n + 1) r (record_frame history n x)
  write_at-Valid h = elim (parity n) [
    | inl e ↦ rw (place_even n e) (write_at_even h e)
    | inr e ↦ rw (place_odd n e) (write_at_odd h e)
  ]

-- With both mutexes free, `write` stores the object as frame number `n` and keeps the buffer
-- valid; it never drops it.
pub write-Valid :
    {A : Type 0} {db : DoubleBuffer A} {n r : ℕ} {history : ℕ → A} (x : A)
    → Valid db n r history
    → n + 3 < 2 ^ 31
    → (db' : DoubleBuffer A) × (write db x ≡ some db')
      × Valid db' (n + 1) r (record_frame history n x)
unfolding write
write-Valid {db} {n} x v h = (
  write_at (place n) x (note_too_far db),
  rw (write_slot v, write),
  write_at-Valid x (note_too_far-Valid v) h,
)
