-- ===== src/V4l/Text.antt =====
-- Strings as the lists of their bytes, without the null byte at the end, and the parts of `snprintf`
-- and `sscanf` that src/sapi_v4l.c uses: `%d` of an `int`.
use libvidcap.Base.{
  ℕ, zero, suc, ◌+◌, ◌-◌, ◌*◌, ◌/◌, ◌%◌, ◌≤◌, ◌<◌, ◌≡◌, refl, ap, ◌∙◌, arith, Bool, true, false,
  ◌&&◌, ◌||◌, ltb, leb, ◌==◌, if◌then◌else◌, Option, none, some, List, [], ◌∷◌, ◌++◌, ℤ, pos,
  negsuc, neg_ℕ, int32, int32_lem, IsInt, Bool-cases, inl, inr, ◌⊎◌,
}

abbrev pub Text : Type 0
Text = List ℕ

abbrev is_digit : ℕ → Bool
is_digit c = leb 48 c && leb c 57

-- `isspace`
abbrev is_space : ℕ → Bool
is_space c = (c == 32) || (leb 9 c && leb c 13)

-- The decimal digits of a number that is at most `bound`.
digits : ℕ → ℕ → Text
digits zero n = (48 + n % 10) ∷ []
digits (suc bound) n =
    let front = digits bound (n / 10) in
    if ltb n 10 then (48 + n) ∷ [] else front ++ (48 + n % 10) ∷ []

-- `%d` in `snprintf`
unfoldable pub print_int : ℤ → Text
unfolding digits
print_int (pos n) = digits n n
print_int (negsuc n) = 45 ∷ digits (suc n) (suc n)

-- The number that the digits at the front of a text stand for, after the digits of `n`.
read_digits : ℕ → Text → ℕ
read_digits n [] = n
read_digits n (c ∷ l) =
    let rest = read_digits (n * 10 + (c - 48)) l in if is_digit c then rest else n

-- At least one digit. A number that does not fit an `int` is undefined in C; it wraps here.
scan_digits : (ℕ → ℤ) → Text → Option ℤ
unfolding read_digits
scan_digits sign [] = none
scan_digits sign (c ∷ l) = if is_digit c then some (int32 (sign (read_digits 0 (c ∷ l)))) else none

-- `%d` in `sscanf`; `none` is a return value that is not 1.
unfoldable pub scan_int : Text → Option ℤ
unfolding scan_digits
scan_int [] = none
scan_int (c ∷ l) =
    let rest = scan_int l in
    if is_space c
    then rest
    else if c == 45
    then scan_digits neg_ℕ l
    else if c == 43
    then scan_digits pos l
    else scan_digits pos (c ∷ l)

abbrev Digits : Text → Type 0
Digits [] = Unit
Digits (c ∷ l) = (is_digit c ≡ true) × Digits l

Digits-snoc : (l : Text) (d : ℕ) → Digits l → is_digit d ≡ true → Digits (l ++ d ∷ [])
Digits-snoc [] d h k = (k, _)
Digits-snoc (c ∷ l) d (h, hs) k = (h, Digits-snoc l d hs k)

read_digits-snoc :
    (l : Text) (n d : ℕ)
    → Digits l
    → is_digit d ≡ true
    → read_digits n (l ++ d ∷ []) ≡ read_digits n l * 10 + (d - 48)
unfolding read_digits
read_digits-snoc [] n d h k = rw k refl
read_digits-snoc (c ∷ l) n d (h, hs) k = rw h (read_digits-snoc l (n * 10 + (c - 48)) d hs k)

is_digit-of : (n : ℕ) → n < 10 → is_digit (48 + n) ≡ true
is_digit-of n h = ground arith

digits-Digits : (bound n : ℕ) → Digits (digits bound n)
unfolding digits
digits-Digits zero n = (is_digit-of (n % 10) (omega arith), _)
digits-Digits (suc bound) n = elim (Bool-cases (ltb n 10)) [
  | inl less ↦ rw less (is_digit-of n (ground arith), _)
  | inr more ↦ rw more (
      Digits-snoc (digits bound (n / 10)) (48 + n % 10) (digits-Digits bound (n / 10))
        (is_digit-of (n % 10) (omega arith)))
]

read_digits-digits : (bound n : ℕ) → n ≤ bound → read_digits 0 (digits bound n) ≡ n
unfolding digits read_digits
read_digits-digits zero n h = rw (is_digit-of (n % 10) (omega arith)) (omega arith)
read_digits-digits (suc bound) n h = elim (Bool-cases (ltb n 10)) [
  | inl less ↦ rw (less, is_digit-of n (ground arith)) (omega arith)
  | inr more ↦
      let ten : 10 ≤ n = ground arith in
      rw
        (
          more,
          read_digits-snoc (digits bound (n / 10)) 0 (48 + n % 10) (digits-Digits bound (n / 10))
              (is_digit-of (n % 10) (omega arith)),
          read_digits-digits bound (n / 10) (omega arith),
        )
        (omega arith)
]

scan_int-Digits :
    (c : ℕ) (l : Text)
    → Digits (c ∷ l)
    → scan_int (c ∷ l) ≡ some (int32 (pos (read_digits 0 (c ∷ l))))
unfolding scan_int
scan_int-Digits c l (h, hs) =
    let no_space : is_space c ≡ false = ground arith in
    let no_minus : (c == 45) ≡ false = ground arith in
    let no_plus : (c == 43) ≡ false = ground arith in rw (no_space, no_minus, no_plus, h) refl

scan_digits-Digits :
    (sign : ℕ → ℤ) (c : ℕ) (l : Text)
    → Digits (c ∷ l)
    → scan_digits sign (c ∷ l) ≡ some (int32 (sign (read_digits 0 (c ∷ l))))
unfolding scan_digits
scan_digits-Digits sign c l (h, hs) = rw h refl

scan_int-minus : (l : Text) → scan_int (45 ∷ l) ≡ scan_digits neg_ℕ l
unfolding scan_int
scan_int-minus l = refl

-- A text is empty or begins with a byte.
Text-cases : (t : Text) → (t ≡ []) ⊎ ((c : ℕ) × (l : Text) × (t ≡ c ∷ l))
Text-cases [] = inl refl
Text-cases (c ∷ l) = inr (c, l, refl)

snoc-nonempty : (l : Text) (d : ℕ) → l ++ d ∷ [] ≡ [] → ⊥
snoc-nonempty [] d e = ground (arith, e)
snoc-nonempty (c ∷ l) d e = ground (arith, e)

digits-nonempty : (bound n : ℕ) → digits bound n ≡ [] → ⊥
unfolding digits
digits-nonempty zero n e = ground (arith, e)
digits-nonempty (suc bound) n e = elim (Bool-cases (ltb n 10)) [
  | inl less ↦ ground (arith, e, less)
  | inr more ↦ snoc-nonempty (digits bound (n / 10)) (48 + n % 10) (rw more at e)
]

neg_ℕ-suc : (n : ℕ) → neg_ℕ (suc n) ≡ negsuc n
neg_ℕ-suc n = ground arith

-- What `%d` prints, `%d` reads.
pub scan_int-print_int : (a : ℤ) → IsInt a → scan_int (print_int a) ≡ some a
unfolding print_int
scan_int-print_int (pos n) h = elim (Text-cases (digits n n)) [
  | inl e ↦ absurd (digits-nonempty n n e)
  | inr (c, l, e) ↦
      let ds : Digits (c ∷ l) = rw e at (digits-Digits n n) in
      let value : read_digits 0 (c ∷ l) ≡ n = rw e at (read_digits-digits n n (omega arith)) in
      rw (e, scan_int-Digits c l ds, value) (ap some (int32_lem (pos n) h))
]
scan_int-print_int (negsuc n) h = elim (Text-cases (digits (suc n) (suc n))) [
  | inl e ↦ absurd (digits-nonempty (suc n) (suc n) e)
  | inr (c, l, e) ↦
      let ds : Digits (c ∷ l) = rw e at (digits-Digits (suc n) (suc n)) in
      let value : read_digits 0 (c ∷ l) ≡ suc n =
        rw e at (read_digits-digits (suc n) (suc n) (omega arith)) in
      rw (e, scan_int-minus (c ∷ l), scan_digits-Digits neg_ℕ c l ds, value)
        (ap (λ (a : ℤ). some (int32 a)) (neg_ℕ-suc n) ∙ ap some (int32_lem (negsuc n) h))
]
