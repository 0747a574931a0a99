-- ===== src/DoubleBuffer/Busy.antt =====
-- `double_buffer_read` against a buffer one place of which is held by the writer.
use libvidcap.Base.{
  ℕ, ◌+◌, ◌-◌, ◌%◌, ◌^◌, ◌≤◌, ◌<◌, ◌≡◌, ap, ◌∙◌, arith, ◌==◌, if◌then◌else◌, inl, inr, pos,
  int32_lem, +ℤ_pos, ◌-ℤ◌, sub_ℕ, ◌≤ℤ◌,
}
use libvidcap.DoubleBuffer.{
  DoubleBuffer, Slot, even, odd, other, free, reader, writer, read_from, read_other, read_locked,
  choose, got, fault, count_at, object_at, lock_at, set_lock, unlock_and_fail,
}
use libvidcap.DoubleBuffer.Valid.{parity}

-- What the reader sees while frame `n` is being written at `s`; `y` is frame `n - 1`.
pub record Busy {A : Type 0} (b : DoubleBuffer A) (s : Slot) (n r : ℕ) (y : A) : Type 0 where
  pub held : lock_at b s ≡ writer
  pub other_free : lock_at b (other s) ≡ free
  pub other_count : count_at b (other s) ≡ pos (n - 1)
  pub other_object : object_at b (other s) ≡ y
  pub read_eq : b.read_count ≡ pos r
  pub read_le : r ≤ n
  pub small : n + 2 < 2 ^ 31
  pub written : pos n ≤ℤ b.write_count

module _ {A : Type 0} where
  read_locked-got :
      (s : Slot) (b : DoubleBuffer A) (k r : ℕ) (y : A)
      → lock_at b s ≡ free
      → count_at b s ≡ pos k
      → object_at b s ≡ y
      → b.read_count ≡ pos r
      → r ≤ k + 1
      → k + 2 < 2 ^ 31
      → read_locked s (set_lock s reader b) ≡ got y (record b { read_count = pos (k + 1) })
  unfolding read_locked ◌-ℤ◌
  read_locked-got even b k r y l c o e h small =
      ground (arith, int32_lem (sub_ℕ r 1), +ℤ_pos k 1, int32_lem (pos (k + 1)))
  read_locked-got odd b k r y l c o e h small =
      ground (arith, int32_lem (sub_ℕ r 1), +ℤ_pos k 1, int32_lem (pos (k + 1)))

  read_from-free :
      (s : Slot) (b : DoubleBuffer A)
      → lock_at b s ≡ free
      → read_from s b ≡ read_locked s (set_lock s reader b)
  unfolding read_from
  read_from-free s b h = rw h

  pub read_from-held :
      (s : Slot) (b : DoubleBuffer A)
      → lock_at b s ≡ writer
      → read_from s b ≡ read_other (other s) b
  unfolding read_from
  read_from-held s b h = rw h

  read_other-got :
      (s : Slot) (b : DoubleBuffer A) (k r : ℕ) (y : A)
      → pos 2 ≤ℤ b.write_count
      → lock_at b s ≡ free
      → count_at b s ≡ pos k
      → object_at b s ≡ y
      → b.read_count ≡ pos r
      → r ≤ k
      → k + 2 < 2 ^ 31
      → read_other s b ≡ got y (record b { read_count = pos (k + 1) })
  unfolding read_other
  read_other-got s b k r y w l c o e h small =
      ground (arith, read_locked-got s b k r y l c o e (omega arith) small)

  -- The other place is stale, and the reader unlocks it: a mutex that it does not hold.
  pub read_other-fault :
      (s : Slot) (b : DoubleBuffer A) (k r : ℕ)
      → pos 2 ≤ℤ b.write_count
      → lock_at b s ≡ free
      → count_at b s ≡ pos k
      → b.read_count ≡ pos r
      → k < r
      → read_other s b ≡ fault
  unfolding read_other unlock_and_fail
  read_other-fault s b k r w l c e h = ground arith

-- The place of frame `r`, seen from the place `s` of frame `n`.
abbrev pub seen_from : Slot → ℕ → ℕ → Slot
seen_from s n r = if (n + r) % 2 == 0 then s else other s

module _ {A : Type 0} {b : DoubleBuffer A} {s : Slot} {n r : ℕ} {y : A} (u : Busy b s n r y) where
  -- The newest complete frame is in the other place, and the reader gets it, from either side.
  from_other : 0 < n → read_from (other s) b ≡ got y (record b { read_count = pos n })
  from_other h =
      let e : n - 1 + 1 ≡ n = omega arith in
      read_from-free (other s) b u.other_free
      ∙ read_locked-got (other s) b (n - 1) r y u.other_free u.other_count u.other_object u.read_eq
          (omega (arith, u.read_le)) (omega (arith, u.small))
      ∙ ap (λ k. got y (record b { read_count = pos k })) e

  from_same : 1 < n → r < n → read_from s b ≡ got y (record b { read_count = pos n })
  from_same h p =
      let e : n - 1 + 1 ≡ n = omega arith in
      read_from-held s b u.held
      ∙ read_other-got (other s) b (n - 1) r y (omega (arith, u.written)) u.other_free u.other_count
          u.other_object u.read_eq (omega arith) (omega (arith, u.small))
      ∙ ap (λ k. got y (record b { read_count = pos k })) e

  pub choose-same : pos r ≤ℤ count_at b s → choose s b ≡ s
  unfolding choose
  choose-same h = ground (arith, u.read_eq)

  choose-other : r ≤ n - 1 → choose (other s) b ≡ other s
  unfolding choose
  choose-other h = ground (arith, u.read_eq, u.other_count)

  -- A frame is still to be read: the reader gets the newest complete one.
  pub busy-got :
      r < n
      → ((n + r) % 2 ≡ 0 → pos r ≤ℤ count_at b s)
      → read_from (choose (seen_from s n r) b) b ≡ got y (record b { read_count = pos n })
  busy-got p fresh = elim (parity (n + r)) [
    | inl e ↦ rw e (ap (λ t. read_from t b) (choose-same (fresh e)) ∙ from_same (omega arith) p)
    | inr e ↦ rw e (ap (λ t. read_from t b) (choose-other (omega arith)) ∙ from_other (omega arith))
  ]
