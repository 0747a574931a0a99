-- ===== src/DoubleBuffer/Read.antt =====
-- `double_buffer_read` with nobody else about.
use libvidcap.Base.{
  ℕ, ◌+◌, ◌-◌, ◌%◌, ◌/◌, ◌*◌, ◌≤◌, ◌<◌, ◌≡◌, refl, ap, ◌∙◌, arith, ltb, if◌then◌else◌, some, inl,
  inr, pos, int32, int32_lem, +ℤ_pos, ltb_ℤ, false, sub_ℕ, rem, ◌+ℤ◌, ◌-ℤ◌,
}
use libvidcap.DoubleBuffer.{
  DoubleBuffer, Slot, even, odd, read, read_from, read_locked, choose, got, slot_of_index,
}
use libvidcap.DoubleBuffer.Valid.{Valid, place, read_slot, place_even, place_odd, parity}

-- The frame that the reader gets: the newest in the place of frame `r`, or the newest of all if
-- `r` is still to come.
abbrev pub newest : ℕ → ℕ → ℕ
newest n r = if ltb r n then n - 1 - (n - 1 + r) % 2 else n - 1

-- A read of a buffer that something was written to comes down to a read of the chosen place.
pub read_lem :
    {A : Type 0} (db : DoubleBuffer A) (s : Slot)
    → ltb_ℤ db.write_count (pos 1) ≡ false
    → slot_of_index (rem db.read_count (pos 2)) ≡ some s
    → read db ≡ read_from (choose s db) db
unfolding read
read_lem db s not_empty slot = rw (not_empty, slot, read)

module _ {A : Type 0} {db : DoubleBuffer A} {n r : ℕ} {history : ℕ → A}
    (v : Valid db n r history) where
  after_read : (k : ℕ) → k < n → r ≤ k + 1 → int32 (pos k +ℤ pos 1) ≡ pos (k + 1)
  after_read k h b = rw (+ℤ_pos k 1) (int32_lem (pos (k + 1)) (omega (arith, v.small)))

  before_read : int32 (pos r -ℤ pos 1) ≡ sub_ℕ r 1
  unfolding ◌-ℤ◌
  before_read = ground (arith, int32_lem (sub_ℕ r 1), v.small, v.read_le)

  not_stale : (k : ℕ) → r ≤ k + 1 → ltb_ℤ (pos k) (int32 (db.read_count -ℤ pos 1)) ≡ false
  not_stale k h = ground (arith, before_read)

  read_even :
      (k : ℕ)
      → k < n
      → r ≤ k + 1
      → db.count0 ≡ pos k
      → db.object0 ≡ history k
      → read_from even db ≡ got (history k) (record db { read_count = pos (k + 1) })
  unfolding read_from read_locked
  read_even k h b c o = ground (arith, not_stale k b, after_read k h b)

  read_odd :
      (k : ℕ)
      → k < n
      → r ≤ k + 1
      → db.count1 ≡ pos k
      → db.object1 ≡ history k
      → read_from odd db ≡ got (history k) (record db { read_count = pos (k + 1) })
  unfolding read_from read_locked
  read_odd k h b c o = ground (arith, not_stale k b, after_read k h b)

  stamped_even :
      (k : ℕ) → k < n → n ≤ k + 2 → k % 2 ≡ 0 → (db.count0 ≡ pos k) × (db.object0 ≡ history k)
  stamped_even k h b e =
      let same : (n - 1) / 2 * 2 ≡ k = omega arith in
      (ground arith, v.object0_eq (omega arith) ∙ ap history same)

  stamped_odd :
      (k : ℕ) → k < n → n ≤ k + 2 → k % 2 ≡ 1 → (db.count1 ≡ pos k) × (db.object1 ≡ history k)
  stamped_odd k h b e =
      let same : n / 2 * 2 - 1 ≡ k = omega arith in
      (ground arith, v.object1_eq (omega arith) ∙ ap history same)

  -- Either of the last two frames can be read from its place.
  read_place :
      (k : ℕ)
      → k < n
      → n ≤ k + 2
      → r ≤ k + 1
      → read_from (place k) db ≡ got (history k) (record db { read_count = pos (k + 1) })
  read_place k h b c = elim (parity k) [
    | inl e ↦
        let (stamp, object) = stamped_even k h b e in
        rw (place_even k e) (read_even k h c stamp object)
    | inr e ↦
        let (stamp, object) = stamped_odd k h b e in
        rw (place_odd k e) (read_odd k h c stamp object)
  ]

  chosen : 0 < n → choose (place r) db ≡ place (newest n r)
  unfolding choose
  chosen h = ground (arith, v.read_le)

  moved-Valid : (k : ℕ) → k < n → Valid (record db { read_count = pos (k + 1) }) n (k + 1) history
  moved-Valid k h = record {
    write_eq = v.write_eq;
    read_eq = refl;
    read_le = omega arith;
    small = v.small;
    count0_eq = v.count0_eq;
    count1_eq = v.count1_eq;
    object0_eq = v.object0_eq;
    object1_eq = v.object1_eq;
    lock0_eq = v.lock0_eq;
    lock1_eq = v.lock1_eq;
  }

  not_empty : 0 < n → ltb_ℤ db.write_count (pos 1) ≡ false
  not_empty h = ground arith

  newest_bounds :
      0 < n
      → (newest n r < n) × (n ≤ newest n r + 2) × (r ≤ newest n r + 1) × (r < n → r ≤ newest n r)
  newest_bounds h = (ground arith, ground arith, ground (arith, v.read_le), λ p. ground arith)

  read-eq :
      0 < n → read db ≡ got (history (newest n r)) (record db { read_count = pos (newest n r + 1) })
  read-eq h =
      let (below, near, fresh, new) = newest_bounds h in
      read_lem db (place r) (not_empty h) (read_slot v)
      ∙ ap (λ s. read_from s db) (chosen h)
      ∙ read_place (newest n r) below near fresh

-- After at least one frame, a read returns a frame that was written, one of the last two, and
-- none older than the frame before the one that it waits for; a frame already read only if there
-- is no newer one. The reader then waits for the frame after it.
pub read-Valid :
    {A : Type 0} {db : DoubleBuffer A} {n r : ℕ} {history : ℕ → A}
    → Valid db n r history
    → 0 < n
    → (k : ℕ) × (db' : DoubleBuffer A) × (read db ≡ got (history k) db')
      × Valid db' n (k + 1) history
      × (k < n)
      × (n ≤ k + 2)
      × (r ≤ k + 1)
      × (r < n → r ≤ k)
read-Valid {db} {n} {r} v h =
    let (below, near, fresh, new) = newest_bounds v h in
    (
      newest n r,
      record db { read_count = pos (newest n r + 1) },
      read-eq v h,
      moved-Valid v (newest n r) below,
      below,
      near,
      fresh,
      new,
    )
