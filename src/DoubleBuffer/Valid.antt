-- ===== src/DoubleBuffer/Valid.antt =====
-- When a double buffer at rest stands for a history of frames.
use libvidcap.Base.{
  ℕ, ◌+◌, ◌-◌, ◌*◌, ◌/◌, ◌%◌, ◌^◌, ◌≤◌, ◌<◌, ◌≡◌, refl, ap, ◌∙◌, arith, ◌==◌, ltb, if◌then◌else◌,
  ◌⊎◌, true, some, ℤ, pos, negsuc, rem, rem_pos,
}
use libvidcap.DoubleBuffer.{DoubleBuffer, Slot, even, odd, free, create, slot_of_index}

-- The number of the last frame that went to a place, after `n` frames; -1 if none did.
abbrev pub stamp_of : ℕ → Slot → ℤ
stamp_of n even = if n == 0 then negsuc 0 else pos ((n - 1) / 2 * 2)
stamp_of n odd = if ltb n 2 then negsuc 0 else pos (n / 2 * 2 - 1)

-- After `n` frames were written, and the reader waits for frame number `r`: each place is
-- stamped with the last frame that went to it, and holds that frame of `history`.
pub record Valid {A : Type 0} (db : DoubleBuffer A) (n r : ℕ) (history : ℕ → A) : Type 0 where
  pub write_eq : db.write_count ≡ pos n
  pub read_eq : db.read_count ≡ pos r
  pub read_le : r ≤ n
  pub small : n + 2 < 2 ^ 31
  pub count0_eq : db.count0 ≡ stamp_of n even
  pub count1_eq : db.count1 ≡ stamp_of n odd
  pub object0_eq : 0 < n → db.object0 ≡ history ((n - 1) / 2 * 2)
  pub object1_eq : 1 < n → db.object1 ≡ history (n / 2 * 2 - 1)
  pub lock0_eq : db.lock0 ≡ free
  pub lock1_eq : db.lock1 ≡ free

-- The place of a frame.
abbrev pub place : ℕ → Slot
place n = if n % 2 == 0 then even else odd

pub slot_of_index-rem : (n : ℕ) → slot_of_index (rem (pos n) (pos 2)) ≡ some (place n)
unfolding slot_of_index
slot_of_index-rem n = rw rem_pos (ground arith)

pub place_even : (n : ℕ) → n % 2 ≡ 0 → place n ≡ even
place_even n h = ground arith

pub place_odd : (n : ℕ) → n % 2 ≡ 1 → place n ≡ odd
place_odd n h = ground arith

pub parity : (n : ℕ) → (n % 2 ≡ 0) ⊎ (n % 2 ≡ 1)
parity n = omega arith

-- The places of a history with frame number `n` added.
abbrev pub record_frame {ℓ} : {A : Type ℓ} → (ℕ → A) → ℕ → A → ℕ → A
record_frame history n x i = if i == n then x else history i

pub create-Valid :
    {A : Type 0} (object1 object2 : A) (history : ℕ → A)
    → (db : DoubleBuffer A) × (create true true object1 object2 ≡ some db) × Valid db 0 0 history
unfolding create
create-Valid object1 object2 history = (_, refl, ground arith)

module _ {A : Type 0} {db : DoubleBuffer A} {n r : ℕ} {history : ℕ → A}
    (v : Valid db n r history) where
  pub write_slot : slot_of_index (rem db.write_count (pos 2)) ≡ some (place n)
  write_slot = ap (λ i. slot_of_index (rem i (pos 2))) v.write_eq ∙ slot_of_index-rem n

  pub read_slot : slot_of_index (rem db.read_count (pos 2)) ≡ some (place r)
  read_slot = ap (λ i. slot_of_index (rem i (pos 2))) v.read_eq ∙ slot_of_index-rem r
