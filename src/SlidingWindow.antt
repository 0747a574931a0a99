-- ===== src/SlidingWindow.antt =====
-- src/sliding_window.c: the last few objects that went by, in a circular array.
-- The functions are translated here; the children prove what they do to the abstract list.
pub mod Spec
pub mod Represents
pub mod Slide
pub mod History
mod Tests
use libvidcap.Base.{
  ℕ, zero, suc, ◌-◌, ◌^◌, Option, none, some, List, length, get_elem?, set, replicate, ltb, ltb_ℤ,
  eqb_ℤ, if◌then◌else◌, ℤ, pos, negsuc, ◌+ℤ◌, ◌*ℤ◌, int32, rem, Bool, not, ◌||◌,
}

-- `struct sliding_window`. The bytes of `objects` are read and written one object at a time, at the
-- offsets `index * object_size`, so they are a list of objects.
pub record SlidingWindow (A : Type 0) : Type 0 where
  pub window_len : ℤ
  pub object_size : ℤ
  pub objects : List A
  pub count : ℤ
  pub head : ℤ
  pub tail : ℤ

-- The conversion of an `int` argument of `calloc` to `size_t`.
abbrev pub size_t : ℤ → ℕ
size_t (pos n) = n
size_t (negsuc n) = 2 ^ 64 - 1 - n

abbrev pub sizeof_sliding_window : ℕ
sizeof_sliding_window = 32

module _ {A : Type 0} where
  -- The fields as `sliding_window_create` sets them, over `slots` zeroed objects.
  abbrev pub fresh : ℕ → A → ℤ → ℤ → SlidingWindow A
  fresh slots zeroed window_len object_size = record {
    window_len = window_len;
    object_size = object_size;
    objects = replicate slots zeroed;
    count = pos 0;
    head = negsuc 0;
    tail = pos 0;
  }

  -- `calloc_ok count size` says whether the allocator has that many bytes; `zeroed` is an object
  -- of zero bytes. `none` is a null pointer.
  unfoldable pub create : (calloc_ok : ℕ → ℕ → Bool) (zeroed : A) → ℤ → ℤ → Option (SlidingWindow A)
  create calloc_ok zeroed window_len object_size =
      let slots = size_t (int32 (window_len +ℤ pos 1)) in
      if calloc_ok 1 sizeof_sliding_window
      then (if calloc_ok slots (size_t object_size)
          then some (fresh slots zeroed window_len object_size)
          else none)
      else none

  unfoldable pub count_of : SlidingWindow A → ℤ
  count_of w = w.count

  -- An index of the array, or `none` out of its range.
  pub slot : List A → ℤ → Option ℕ
  slot xs (pos i) = if ltb i (length xs) then some i else none
  slot xs (negsuc i) = none

  -- The place of `objects[index * object_size]`. The product is an `int`: where it does not fit one
  -- the offset is another one, or the program stops; this is `none`, as are a negative `object_size`
  -- and a place out of the array.
  pub place : SlidingWindow A → ℤ → Option ℕ
  unfolding slot
  place w index =
      let offset = index *ℤ w.object_size in
      if ltb_ℤ w.object_size (pos 0) || not (eqb_ℤ (int32 offset) offset)
      then none
      else slot w.objects index

  -- The branch at the end of `sliding_window_slide`.
  pub advance : SlidingWindow A → SlidingWindow A
  advance w =
      if ltb_ℤ w.count w.window_len
      then record w { count = int32 (w.count +ℤ pos 1) }
      else record w { tail = rem (int32 (w.tail +ℤ pos 1)) w.window_len }

  -- `none` is a fault: a division by a zero `window_len`, an offset that is not that of the object, or
  -- a copy out of the array.
  unfoldable pub slide : SlidingWindow A → A → Option (SlidingWindow A)
  unfolding place advance
  slide w new_object =
      let head = rem (int32 (w.head +ℤ pos 1)) w.window_len in
      if eqb_ℤ w.window_len (pos 0) then none else elim (place w head) [
        | none ↦ none
        | some i ↦ some (advance (record w { head = head; objects = set w.objects i new_object }))
      ]

  -- `some none` is the null pointer of an empty window, and `none` a pointer out of the array, or
  -- to an offset that is not that of the object.
  unfoldable pub peek_front : SlidingWindow A → Option (Option A)
  unfolding place
  peek_front w =
      if eqb_ℤ w.count (pos 0)
      then some none
      else elim (place w w.tail) [ none ↦ none | some i ↦ some (get_elem? w.objects i) ]
