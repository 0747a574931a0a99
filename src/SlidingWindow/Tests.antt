-- ===== src/SlidingWindow/Tests.antt =====
-- Runs of the sliding window, and its theorems at concrete inputs.
use libvidcap.Base.{
  ℕ, ◌≡◌, refl, arith, some, none, List, [], ◌∷◌, length, pos, negsuc, ◌-◌, min, get_elem?, Bool,
  ltb, ◌*◌, int32, rem, ◌+ℤ◌, ◌*ℤ◌,
}
use libvidcap.SlidingWindow.{SlidingWindow, create, slide, peek_front, count_of}
use libvidcap.SlidingWindow.Spec.{take_last}
use libvidcap.SlidingWindow.Represents.{Represents}
use libvidcap.SlidingWindow.History.{slide_all, window_history}

-- An allocator with a thousand bytes to a call.
abbrev small_heap : ℕ → ℕ → Bool
small_heap count size = ltb (count * size) 1000

abbrev five : List ℕ
five = 1 ∷ 2 ∷ 3 ∷ 4 ∷ 5 ∷ []

abbrev three_of_five : SlidingWindow ℕ
three_of_five = record {
  window_len = pos 3;
  object_size = pos 16;
  objects = 4 ∷ 5 ∷ 3 ∷ 0 ∷ [];
  count = pos 3;
  head = pos 1;
  tail = pos 2;
}

abbrev empty_three : SlidingWindow ℕ
empty_three = record three_of_five {
  objects = 0 ∷ 0 ∷ 0 ∷ 0 ∷ [];
  count = pos 0;
  head = negsuc 0;
  tail = pos 0;
}

slide_all-five : slide_all empty_three five ≡ some three_of_five
unfolding slide_all slide rem int32 ◌+ℤ◌ ◌*ℤ◌
slide_all-five = refl

peek_front_five : peek_front three_of_five ≡ some (some 3)
unfolding peek_front int32 ◌*ℤ◌
peek_front_five = refl

create_refused : create {A = ℕ} small_heap 0 (pos 100) (pos 16) ≡ none
unfolding create int32 ◌+ℤ◌
create_refused = refl

window_history_example :
    (w₀ w : SlidingWindow ℕ) × (create small_heap 0 (pos 3) (pos 16) ≡ some w₀)
    × (slide_all w₀ five ≡ some w)
    × Represents w 3 (take_last 3 five)
    × (count_of w ≡ pos (min (length five) 3))
    × (peek_front w ≡ some (get_elem? five (length five - 3)))
window_history_example =
    window_history small_heap 0 3 16 five (omega arith) (omega arith) (omega arith) refl refl

-- An object at an offset of 2 ^ 31 has no place.
abbrev two_gigabytes : SlidingWindow ℕ
two_gigabytes = record three_of_five { object_size = pos 1073741824 }

peek_front_overflow : peek_front two_gigabytes ≡ none
unfolding peek_front int32 ◌*ℤ◌
peek_front_overflow = refl
