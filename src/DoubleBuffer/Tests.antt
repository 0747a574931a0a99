-- ===== src/DoubleBuffer/Tests.antt =====
-- Runs of the double buffer, and its theorems at concrete inputs.
use libvidcap.Base.{
  ℕ, ◌≡◌, refl, arith, some, ◌+◌, ◌≤◌, ◌<◌, inl, pos, rem, int32, ◌+ℤ◌, ◌-ℤ◌, true,
}
use libvidcap.DoubleBuffer.{
  DoubleBuffer, free, reader, create, write, read, write_until, got, fault, stamped, locked, Phase,
}
use libvidcap.DoubleBuffer.Valid.{Valid, place, record_frame, create-Valid}
use libvidcap.DoubleBuffer.Write.{write-Valid}
use libvidcap.DoubleBuffer.Read.{read-Valid}
use libvidcap.DoubleBuffer.During.{read-during_write, read-during_write_fault}

-- Frame `i` is the number `10 * (i + 1)`.
abbrev frames : ℕ → ℕ
frames i = 10 + i

-- Three frames were written, and the reader waits for frame `r`.
abbrev after_three : ℕ → DoubleBuffer ℕ
after_three r = record {
  read_count = pos r;
  write_count = pos 3;
  object0 = 12;
  object1 = 11;
  lock0 = free;
  lock1 = free;
  count0 = pos 2;
  count1 = pos 1;
  num_insert_too_far_failures = pos 0;
}

after_three-Valid : (r : ℕ) → r ≤ 3 → Valid (after_three r) 3 r frames
after_three-Valid r h = record {
  write_eq = refl;
  read_eq = refl;
  read_le = h;
  small = omega arith;
  count0_eq = refl;
  count1_eq = refl;
  object0_eq = λ p. refl;
  object1_eq = λ p. refl;
  lock0_eq = refl;
  lock1_eq = refl;
}

read_skips : read (after_three 0) ≡ got 12 (after_three 3)
unfolding read rem int32 ◌+ℤ◌ ◌-ℤ◌
read_skips = refl

read_again : read (after_three 3) ≡ got 12 (after_three 3)
unfolding read rem int32 ◌+ℤ◌ ◌-ℤ◌
read_again = refl

write_drops :
    write (record (after_three 2) { lock1 = reader }) 13
    ≡ some (record (after_three 2) { lock1 = reader })
unfolding write rem int32 ◌+ℤ◌
write_drops = refl

create-Valid_example :
    (db : DoubleBuffer ℕ) × (create true true 0 0 ≡ some db) × Valid db 0 0 frames
create-Valid_example = create-Valid 0 0 frames

write-Valid_example :
    (db : DoubleBuffer ℕ) × (write (after_three 1) 13 ≡ some db)
    × Valid db 4 1 (record_frame frames 3 13)
write-Valid_example = write-Valid 13 (after_three-Valid 1 (omega arith)) (omega arith)

read-Valid_example :
    (k : ℕ) × (db : DoubleBuffer ℕ) × (read (after_three 1) ≡ got (frames k) db)
    × Valid db 3 (k + 1) frames
    × (k < 3)
    × (3 ≤ k + 2)
    × (1 ≤ k + 1)
    × (1 < 3 → 1 ≤ k)
read-Valid_example = read-Valid (after_three-Valid 1 (omega arith)) (omega arith)

read-during_write_example :
    let b = write_until Phase.locked (place 3) 13 (after_three 1) in
    read b ≡ got (frames 2) (record b { read_count = pos 3 })
read-during_write_example =
    read-during_write 13 locked (after_three-Valid 1 (omega arith)) (omega arith)

read-during_write_fault_example : read (write_until stamped (place 3) 13 (after_three 3)) ≡ fault
read-during_write_fault_example =
    read-during_write_fault 13 stamped (after_three-Valid 3 (omega arith)) (omega arith) (inl refl)
