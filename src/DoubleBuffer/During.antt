-- ===== src/DoubleBuffer/During.antt =====
-- `double_buffer_read` by the timer thread while the capture thread stands inside
-- `double_buffer_write`, at any point of its critical section.
use libvidcap.Base.{
  ℕ, ◌+◌, ◌-◌, ◌%◌, ◌/◌, ◌*◌, ◌≤◌, ◌<◌, ◌≡◌, ap, ◌∙◌, arith, false, ◌⊎◌, inl, inr, pos, int32,
  int32_lem, +ℤ_pos, ◌+ℤ◌, ltb_ℤ, pos_part, neg_part, rem, ◌≤ℤ◌, some,
}
use libvidcap.DoubleBuffer.{
  DoubleBuffer, even, odd, other, read, read_from, choose, got, fault, count_at, Phase, locked,
  stamped, counted, write_until, slot_of_index,
}
use libvidcap.DoubleBuffer.Busy.{
  Busy, read_from-held, read_other-fault, choose-same, busy-got, seen_from,
}
use libvidcap.DoubleBuffer.Read.{read_lem}
use libvidcap.DoubleBuffer.Valid.{Valid, place, slot_of_index-rem, place_even, place_odd, parity}

module _ {A : Type 0} {db : DoubleBuffer A} {n r : ℕ} {history : ℕ → A} (x : A)
    (v : Valid db n r history) where
  -- The buffer while frame `n` is being written.
  abbrev midway : Phase → DoubleBuffer A
  midway p = write_until p (place n) x db

  next_count : int32 (db.write_count +ℤ pos 1) ≡ pos (n + 1)
  next_count = rw (v.write_eq, +ℤ_pos n 1) (int32_lem (pos (n + 1)) (omega (arith, v.small)))

  object_even : 0 < n → n % 2 ≡ 0 → db.object1 ≡ history (n - 1)
  object_even h e =
      let same : n / 2 * 2 - 1 ≡ n - 1 = omega arith in v.object1_eq (omega arith) ∙ ap history same

  object_odd : 0 < n → n % 2 ≡ 1 → db.object0 ≡ history (n - 1)
  object_odd h e =
      let same : (n - 1) / 2 * 2 ≡ n - 1 = omega arith in v.object0_eq h ∙ ap history same

  midway_even :
      (p : Phase) → 0 < n → n % 2 ≡ 0 → Busy (write_until p even x db) even n r (history (n - 1))
  unfolding write_until
  midway_even locked h e = ground (arith, object_even h e, next_count)
  midway_even _ h e = ground (arith, object_even h e, next_count)

  midway_odd :
      (p : Phase) → 0 < n → n % 2 ≡ 1 → Busy (write_until p odd x db) odd n r (history (n - 1))
  unfolding write_until
  midway_odd locked h e = ground (arith, object_odd h e, next_count)
  midway_odd _ h e = ground (arith, object_odd h e, next_count)

  midway-Busy : (p : Phase) → 0 < n → Busy (midway p) (place n) n r (history (n - 1))
  midway-Busy p h = elim (parity n) [
    | inl e ↦ rw (place_even n e) (midway_even p h e)
    | inr e ↦ rw (place_odd n e) (midway_odd p h e)
  ]

  -- The place being written is stamped with frame `n`, or still with frame `n - 2`.
  midway_count : (p : Phase) → r < n → (n + r) % 2 ≡ 0 → pos r ≤ℤ count_at (midway p) (place n)
  unfolding write_until
  midway_count locked h e = ground arith
  midway_count _ h e = ground arith

  midway_stamped :
      (p : Phase) → (p ≡ stamped) ⊎ (p ≡ counted) → count_at (midway p) (place n) ≡ pos n
  unfolding write_until
  midway_stamped locked h = ground arith
  midway_stamped _ h = ground arith

  place_seen : place r ≡ seen_from (place n) n r
  place_seen = ground arith

  read-midway :
      (p : Phase)
      → 0 < n
      → read (midway p) ≡ read_from (choose (seen_from (place n) n r) (midway p)) (midway p)
  read-midway p h =
      let u = midway-Busy p h in
      let some_written : ltb_ℤ (midway p).write_count (pos 1) ≡ false = ground (arith, u.written) in
      let slot : slot_of_index (rem (midway p).read_count (pos 2)) ≡ some (place r) =
        ap (λ i. slot_of_index (rem i (pos 2))) u.read_eq ∙ slot_of_index-rem r in
      read_lem (midway p) (place r) some_written slot
      ∙ ap (λ s. read_from (choose s (midway p)) (midway p)) place_seen

-- While frame `n` is being written and the reader still waits for an earlier frame, a read at
-- any point of the write gets the newest complete frame, `n - 1`, whole.
pub read-during_write :
    {A : Type 0} {db : DoubleBuffer A} {n r : ℕ} {history : ℕ → A} (x : A) (p : Phase)
    → Valid db n r history
    → r < n
    → let b = write_until p (place n) x db in
      read b ≡ got (history (n - 1)) (record b { read_count = pos n })
read-during_write {n} x p v h =
    read-midway x v p (omega arith)
    ∙ busy-got (midway-Busy x v p (omega arith)) h (midway_count x v p h)

-- Once the reader has read all `n ≥ 2` frames, a read that falls between the stamping of frame
-- `n` and the release of its mutex unlocks the mutex of the other place, which the reader does
-- not hold.
pub read-during_write_fault :
    {A : Type 0} {db : DoubleBuffer A} {n : ℕ} {history : ℕ → A} (x : A) (p : Phase)
    → Valid db n n history
    → 2 ≤ n
    → (p ≡ stamped) ⊎ (p ≡ counted)
    → read (write_until p (place n) x db) ≡ fault
read-during_write_fault {db} {n} x p v h when =
    let b = write_until p (place n) x db in
    let u = midway-Busy x v p (omega arith) in
    let stamp = midway_stamped x v p when in
    let seen : seen_from (place n) n n ≡ place n = ground arith in
    read-midway x v p (omega arith)
    ∙ ap (λ s. read_from (choose s b) b) seen
    ∙ ap (λ s. read_from s b) (choose-same u (omega (arith, ap pos_part stamp, ap neg_part stamp)))
    ∙ read_from-held (place n) b u.held
    ∙ read_other-fault (other (place n)) b (n - 1) n (omega (arith, u.written)) u.other_free
        u.other_count u.read_eq (omega arith)
