-- ===== src/SlidingWindow/Represents.antt =====
-- When a window holds a list, and that `sliding_window_create` returns one that holds none.
use libvidcap.Base.{
  ℕ, ◌+◌, ◌-◌, ◌*◌, ◌%◌, ◌^◌, ◌≤◌, ◌<◌, ◌≡◌, refl, arith, some, List, [], length, get_elem?,
  length-replicate, pos, ◌+ℤ◌, int32, rem, Bool, true, int32_lem, +ℤ_pos,
}
use libvidcap.SlidingWindow.{SlidingWindow, sizeof_sliding_window, fresh, create, size_t}

-- The window `w`, of length `n`, holds the list `xs`. The offset of its last object but one, the
-- largest that is used, fits an `int`.
pub record Represents {A : Type 0} (w : SlidingWindow A) (n : ℕ) (xs : List A) : Type 0 where
  pub tail : ℕ
  pub size : ℕ
  pub positive : 0 < n
  pub small : n < 2 ^ 31
  pub size_eq : w.object_size ≡ pos size
  pub offsets : (n - 1) * size < 2 ^ 31
  pub len_eq : w.window_len ≡ pos n
  pub slots : length w.objects ≡ n + 1
  pub count_eq : w.count ≡ pos (length xs)
  pub fits : length xs ≤ n
  pub tail_eq : w.tail ≡ pos tail
  pub tail_in : tail < n
  pub head_next : rem (int32 (w.head +ℤ pos 1)) (pos n) ≡ pos ((tail + length xs) % n)
  pub holds : (i : ℕ) → i < length xs → get_elem? w.objects ((tail + i) % n) ≡ get_elem? xs i

fresh-Represents :
    {A : Type 0} (n : ℕ) (zeroed : A) (size : ℕ)
    → 0 < n
    → n < 2 ^ 31
    → (n - 1) * size < 2 ^ 31
    → Represents (fresh (n + 1) zeroed (pos n) (pos size)) n []
fresh-Represents n zeroed size pos_n small offsets = record {
  tail = 0;
  size = size;
  size_eq = refl;
  offsets = offsets;
  positive = pos_n;
  small = small;
  len_eq = refl;
  slots = length-replicate (n + 1) zeroed;
  count_eq = refl;
  fits = omega arith;
  tail_eq = refl;
  tail_in = pos_n;
  head_next = unfold rem ◌+ℤ◌ int32 in refl;
  holds = λ i h. elim h [ ];
}

slots_of_len : (n : ℕ) → n + 1 < 2 ^ 31 → size_t (int32 (pos n +ℤ pos 1)) ≡ n + 1
slots_of_len n h = rw (+ℤ_pos n 1, int32_lem (pos (n + 1)) (omega arith))

-- Where the allocator grants both blocks, `create` returns a window that holds the empty list.
pub create-Represents :
    {A : Type 0} (calloc_ok : ℕ → ℕ → Bool) (zeroed : A) (n size : ℕ)
    → 0 < n
    → n + 1 < 2 ^ 31
    → (n - 1) * size < 2 ^ 31
    → calloc_ok 1 sizeof_sliding_window ≡ true
    → calloc_ok (n + 1) size ≡ true
    → (w : SlidingWindow A) × (create calloc_ok zeroed (pos n) (pos size) ≡ some w)
      × Represents w n []
unfolding create
create-Represents calloc_ok zeroed n size pos_n small offsets struct_ok array_ok = (
  fresh (n + 1) zeroed (pos n) (pos size),
  rw (slots_of_len n small, struct_ok, array_ok),
  fresh-Represents n zeroed size pos_n (omega arith) offsets,
)
