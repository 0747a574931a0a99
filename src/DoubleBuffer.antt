-- ===== src/DoubleBuffer.antt =====
-- src/double_buffer.c: the latest two frames, handed from the capture thread, which writes, to
-- the timer thread, which reads, under one mutex for each of the two places.
-- The functions are translated here; the children prove what they do.
pub mod Valid
pub mod Write
pub mod Read
pub mod Busy
pub mod During
mod Tests
use libvidcap.Base.{
  ℕ, ◌≡◌, Bool, true, false, Option, none, some, if◌then◌else◌, ltb_ℤ, eqb_ℤ, ℤ, pos, negsuc, ◌+ℤ◌,
  ◌-ℤ◌, int32, rem,
}

-- An index of the arrays `objects`, `locks` and `count`.
pub data Slot : Type 0 where
  even odd : Slot

-- Who holds a mutex.
pub data Owner : Type 0 where
  free writer reader : Owner

-- `struct double_buffer`, its arrays of two taken apart. `copy_object` copies whole objects.
pub record DoubleBuffer (A : Type 0) : Type 0 where
  pub read_count : ℤ
  pub write_count : ℤ
  pub object0 : A
  pub object1 : A
  pub lock0 : Owner
  pub lock1 : Owner
  pub count0 : ℤ
  pub count1 : ℤ
  pub num_insert_too_far_failures : ℤ

abbrev pub other : Slot → Slot
other even = odd
other odd = even

-- `none` is an index out of the arrays.
unfoldable pub slot_of_index : ℤ → Option Slot
slot_of_index i = if eqb_ℤ i (pos 0) then some even else if eqb_ℤ i (pos 1) then some odd else none

-- `vc_mutex_trylock` succeeds on a mutex that nobody holds.
abbrev pub is_free : Owner → Bool
is_free free = true
is_free writer = false
is_free reader = false

abbrev pub is_reader : Owner → Bool
is_reader free = false
is_reader writer = false
is_reader reader = true

-- How far the writer has come in its critical section.
pub data Phase : Type 0 where
  locked copied stamped counted : Phase

-- What `double_buffer_read` comes to: 0 with the object copied out, or -1. `fault` is an index
-- out of the arrays, or the unlocking of a mutex that the reader does not hold.
pub data ReadResult (A : Type 0) : Type 0 where
  got : A → DoubleBuffer A → ReadResult A
  failed : DoubleBuffer A → ReadResult A
  fault : ReadResult A

module _ {A : Type 0} where
  abbrev pub object_at : DoubleBuffer A → Slot → A
  object_at db even = db.object0
  object_at db odd = db.object1

  abbrev pub lock_at : DoubleBuffer A → Slot → Owner
  lock_at db even = db.lock0
  lock_at db odd = db.lock1

  abbrev pub count_at : DoubleBuffer A → Slot → ℤ
  count_at db even = db.count0
  count_at db odd = db.count1

  abbrev pub set_object : Slot → A → DoubleBuffer A → DoubleBuffer A
  set_object even x db = record db { object0 = x }
  set_object odd x db = record db { object1 = x }

  abbrev pub set_lock : Slot → Owner → DoubleBuffer A → DoubleBuffer A
  set_lock even o db = record db { lock0 = o }
  set_lock odd o db = record db { lock1 = o }

  abbrev pub set_count : Slot → ℤ → DoubleBuffer A → DoubleBuffer A
  set_count even n db = record db { count0 = n }
  set_count odd n db = record db { count1 = n }

  -- `double_buffer_create`, where `calloc` succeeds; a null `copy_object` is refused.
  unfoldable pub create : Bool → Bool → A → A → Option (DoubleBuffer A)
  create has_copy_func calloc_ok object1 object2 =
      if has_copy_func
      then (if calloc_ok
          then some (record {
            read_count = pos 0;
            write_count = pos 0;
            object0 = object1;
            object1 = object2;
            lock0 = free;
            lock1 = free;
            count0 = negsuc 0;
            count1 = negsuc 0;
            num_insert_too_far_failures = pos 0;
          })
          else none)
      else none

  -- The counter at the top of `double_buffer_write`.
  note_too_far : DoubleBuffer A → DoubleBuffer A
  note_too_far db =
      if ltb_ℤ (int32 (db.read_count +ℤ pos 2)) db.write_count
      then record db {
        num_insert_too_far_failures = int32 (db.num_insert_too_far_failures +ℤ pos 1);
      }
      else db

  -- The statements of the critical section of `double_buffer_write`.
  stamp : Slot → DoubleBuffer A → DoubleBuffer A
  stamp s db = set_count s db.write_count db

  advance : DoubleBuffer A → DoubleBuffer A
  advance db = record db { write_count = int32 (db.write_count +ℤ pos 1) }

  -- The critical section at `insertion_index`, up to a phase: the lock is taken, the object
  -- copied, the buffer stamped, the write count advanced.
  unfoldable pub write_until : Phase → Slot → A → DoubleBuffer A → DoubleBuffer A
  unfolding stamp advance
  write_until locked s x db = set_lock s writer db
  write_until copied s x db = set_object s x (set_lock s writer db)
  write_until stamped s x db = stamp s (set_object s x (set_lock s writer db))
  write_until counted s x db = advance (stamp s (set_object s x (set_lock s writer db)))

  -- An object that finds its place locked is dropped.
  write_at : Slot → A → DoubleBuffer A → DoubleBuffer A
  unfolding write_until
  write_at s x db =
      if is_free (lock_at db s) then set_lock s free (write_until counted s x db) else db

  -- `double_buffer_write`; `none` is an index out of the arrays.
  unfoldable pub write : DoubleBuffer A → A → Option (DoubleBuffer A)
  unfolding slot_of_index note_too_far write_at
  write db new_object = elim (slot_of_index (rem db.write_count (pos 2))) [
    | none ↦ none
    | some s ↦ some (write_at s new_object (note_too_far db))
  ]

  -- `vc_mutex_unlock` by the reader, and then `return -1`.
  unlock_and_fail : Slot → DoubleBuffer A → ReadResult A
  unlock_and_fail s db = if is_reader (lock_at db s) then failed (set_lock s free db) else fault

  -- The end of `double_buffer_read`, with the lock of `copy_index` taken.
  read_locked : Slot → DoubleBuffer A → ReadResult A
  read_locked s db =
      if ltb_ℤ (count_at db s) (int32 (db.read_count -ℤ pos 1))
      then unlock_and_fail s db
      else got (object_at db s)
          (set_lock s free (record db { read_count = int32 (count_at db s +ℤ pos 1) }))

  -- The failure of the first `vc_mutex_trylock`; `s` is the other place.
  pub read_other : Slot → DoubleBuffer A → ReadResult A
  read_other s db =
      if ltb_ℤ db.write_count (pos 2)
      then failed db
      else if ltb_ℤ (count_at db s) db.read_count
      then unlock_and_fail s db
      else if is_free (lock_at db s)
      then read_locked s (set_lock s reader db)
      else failed db

  -- The reader takes the next place, or the previous one if the next is not ready.
  pub choose : Slot → DoubleBuffer A → Slot
  choose s db = if ltb_ℤ (count_at db s) db.read_count then other s else s

  pub read_from : Slot → DoubleBuffer A → ReadResult A
  read_from s db =
      if is_free (lock_at db s)
      then read_locked s (set_lock s reader db)
      else read_other (other s) db

  unfoldable pub read : DoubleBuffer A → ReadResult A
  unfolding slot_of_index choose read_from read_other read_locked unlock_and_fail
  read db =
      if ltb_ℤ db.write_count (pos 1)
      then failed db
      else elim (slot_of_index (rem db.read_count (pos 2))) [
        | none ↦ fault
        | some s ↦ read_from (choose s db) db
      ]

  pub count_of : DoubleBuffer A → ℤ
  count_of db = db.write_count
