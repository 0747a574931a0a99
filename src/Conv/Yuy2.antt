-- ===== src/Conv/Yuy2.antt =====
-- `conv_2vuy_to_yuy2` of src/conv_to_yuy2.c: in each word of four bytes the bytes of both pairs
-- change places. Words are read and written least significant byte first. `&` with a byte's mask
-- and shifts are written as division, remainder and product, and `|` of disjoint bytes as `+`.
use libvidcap.Base.{
  ℕ, suc, ◌+◌, ◌-◌, ◌*◌, ◌/◌, ◌%◌, ◌<◌, ◌≤◌, ◌≡◌, refl, sym, ap, ◌∙◌, arith, true, false, ◌&&◌, leb,
  ltb, ◌==◌, if◌then◌else◌, Option, none, some, ℤ, pos, Bytes, repeat, repeat_inv, Bool-cases, inl,
  inr, ◌⊎◌,
}
use libvidcap.Conv.Destride.{◌>>=◌}

-- Byte `k` of a word.
abbrev pub byte_of : ℕ → ℕ → ℕ
byte_of v k =
    if k == 0
    then v % 256
    else if k == 1
    then v / 256 % 256
    else if k == 2
    then v / 65536 % 256
    else v / 16777216 % 256

abbrev word_of : ℕ → ℕ → ℕ → ℕ → ℕ
word_of b0 b1 b2 b3 = b0 + 256 * b1 + 65536 * b2 + 16777216 * b3

abbrev put32 : (ℕ → ℕ) → ℕ → ℕ → ℕ → ℕ
put32 f p v i = if leb p i && ltb i (p + 4) then byte_of v (i - p) else f i

-- `*s` and `*d = v`, four bytes each
load32 : Bytes → ℕ → Option ℕ
load32 b p =
    if leb (p + 4) b.size
    then some (word_of (b.at p) (b.at (p + 1)) (b.at (p + 2)) (b.at (p + 3)))
    else none

store32 : Bytes → ℕ → ℕ → Option Bytes
store32 b p v = if leb (p + 4) b.size then some (record b { at = put32 b.at p v }) else none

-- The expression of the loop's body.
abbrev swap_pairs : ℕ → ℕ
swap_pairs w = byte_of w 3 * 65536 + byte_of w 2 * 16777216 + byte_of w 1 + byte_of w 0 * 256

pub record Words : Type 0 where
  pub dst : Bytes
  pub s : ℕ
  pub d : ℕ

swap_word : Bytes → Words → Option Words
unfolding load32 store32
swap_word src st = do
  w ← load32 src st.s
  dst ← store32 st.dst st.d (swap_pairs w)
  some (record { dst = dst; s = st.s + 4; d = st.d + 4 })

-- The function, for sizes whose product fits an `int`.
unfoldable pub conv_2vuy_to_yuy2 : ℕ → ℕ → Bytes → Bytes → Option (ℤ × Bytes)
unfolding swap_word
conv_2vuy_to_yuy2 width height src dst = do
  st ← repeat (width * height / 2) (swap_word src) (record { dst = dst; s = 0; d = 0 })
  some (pos 0, st.dst)

-- The other byte of a pair.
abbrev pub partner : ℕ → ℕ
partner i = if i % 2 == 0 then i + 1 else i - 1

-- The first `n` words are swapped, and the other bytes are those of `dst`.
pub record Swapped (src dst dst' : Bytes) (n : ℕ) : Type 0 where
  pub same_size : dst'.size ≡ dst.size
  pub inside : (i : ℕ) → i < 4 * n → dst'.at i ≡ src.at (partner i)
  pub outside : (i : ℕ) → 4 * n ≤ i → dst'.at i ≡ dst.at i

-- The bytes of a word, and of its swapped word.
byte_of_word :
    (b0 b1 b2 b3 : ℕ)
    → b0 < 256
    → b1 < 256
    → b2 < 256
    → b3 < 256
    → let w = word_of b0 b1 b2 b3 in
      (byte_of w 0 ≡ b0) × (byte_of w 1 ≡ b1) × (byte_of w 2 ≡ b2) × (byte_of w 3 ≡ b3)
byte_of_word b0 b1 b2 b3 h0 h1 h2 h3 = (omega arith, omega arith, omega arith, omega arith)

swap_pairs_word :
    (b0 b1 b2 b3 : ℕ)
    → b0 < 256
    → b1 < 256
    → b2 < 256
    → b3 < 256
    → swap_pairs (word_of b0 b1 b2 b3) ≡ word_of b1 b0 b3 b2
swap_pairs_word b0 b1 b2 b3 h0 h1 h2 h3 =
    let (e0, e1, e2, e3) = byte_of_word b0 b1 b2 b3 h0 h1 h2 h3 in rw (e0, e1, e2, e3) (omega arith)

place_in_word :
    (k i : ℕ)
    → 4 * k ≤ i
    → i < 4 * k + 4
    → (i - 4 * k ≡ 0) ⊎ ((i - 4 * k ≡ 1) ⊎ ((i - 4 * k ≡ 2) ⊎ (i - 4 * k ≡ 3)))
place_in_word k i h g = ground arith

swapped_byte :
    (f : ℕ → ℕ) (k i : ℕ)
    → ((j : ℕ) → f j < 256)
    → 4 * k ≤ i
    → i < 4 * k + 4
    → byte_of
        (swap_pairs (word_of (f (4 * k)) (f (4 * k + 1)) (f (4 * k + 2)) (f (4 * k + 3))))
        (i - 4 * k)
      ≡ f (partner i)
swapped_byte f k i small h g =
    let b0 = f (4 * k) in
    let b1 = f (4 * k + 1) in
    let b2 = f (4 * k + 2) in
    let b3 = f (4 * k + 3) in
    let s = swap_pairs_word b0 b1 b2 b3 (small _) (small _) (small _) (small _) in
    let (e0, e1, e2, e3) = byte_of_word b1 b0 b3 b2 (small _) (small _) (small _) (small _) in
    let w = word_of b1 b0 b3 b2 in
    let swapped = ap (λ (v : ℕ). byte_of v (i - 4 * k)) s in
    elim (place_in_word k i h g) [
      | inl e ↦
          let p : partner i ≡ 4 * k + 1 = ground arith in
          swapped ∙ ap (byte_of w) e ∙ e0 ∙ ap f (sym p)
      | inr (inl e) ↦
          let p : partner i ≡ 4 * k = ground arith in swapped ∙ ap (byte_of w) e ∙ e1 ∙ ap f (sym p)
      | inr (inr (inl e)) ↦
          let p : partner i ≡ 4 * k + 3 = ground arith in
          swapped ∙ ap (byte_of w) e ∙ e2 ∙ ap f (sym p)
      | inr (inr (inr e)) ↦
          let p : partner i ≡ 4 * k + 2 = ground arith in
          swapped ∙ ap (byte_of w) e ∙ e3 ∙ ap f (sym p)
    ]

module _ (src dst : Bytes) (n : ℕ) (bytes : (j : ℕ) → src.at j < 256) (src_fits : 4 * n ≤ src.size)
    (dst_fits : 4 * n ≤ dst.size) where
  abbrev Invariant : ℕ → Words → Type 0
  Invariant k st = Swapped src dst st.dst k × (st.s ≡ 4 * k) × (st.d ≡ 4 * k)

  keep :
      (k : ℕ) (st : Words)
      → k < n
      → Invariant k st
      → (st' : Words) × (swap_word src st ≡ some st') × Invariant (suc k) st'
  unfolding swap_word load32 store32
  keep k st h (sw, es, ed) =
      let w =
        word_of (src.at (4 * k)) (src.at (4 * k + 1)) (src.at (4 * k + 2)) (src.at (4 * k + 3)) in
      let next : Words = record {
        dst = record st.dst { at = put32 st.dst.at (4 * k) (swap_pairs w) };
        s = 4 * k + 4;
        d = 4 * k + 4;
      } in
      let reads : leb (4 * k + 4) src.size ≡ true = ground arith in
      let writes : leb (4 * k + 4) st.dst.size ≡ true = ground (arith, sw.same_size) in
      (next, rw (es, ed, reads, writes) refl, (swapped_more, omega arith, omega arith))
    where
      w : ℕ
      w = word_of (src.at (4 * k)) (src.at (4 * k + 1)) (src.at (4 * k + 2)) (src.at (4 * k + 3))

      swapped_more :
          Swapped src dst (record st.dst { at = put32 st.dst.at (4 * k) (swap_pairs w) }) (suc k)
      swapped_more = record {
        same_size = sw.same_size;
        inside = λ i l. elim (Bool-cases (leb (4 * k) i)) [
          | inl ge ↦
              let lt : ltb i (4 * k + 4) ≡ true = ground arith in
              rw (ge, lt) (swapped_byte src.at k i bytes (ground arith) (omega arith))
          | inr less ↦ rw less (sw.inside i (ground arith))
        ];
        outside = λ i l.
            let past : ltb i (4 * k + 4) ≡ false = ground arith in
            let ge : leb (4 * k) i ≡ true = ground arith in
            rw (ge, past) (sw.outside i (omega arith));
      }

-- For blocks that hold the `width * height / 2` words, the conversion returns 0 without a fault. In
-- the words the bytes of each pair have changed places, and no other byte of the destination has
-- changed.
pub conv_2vuy_to_yuy2-Swapped :
    (width height : ℕ) (src dst : Bytes)
    → ((j : ℕ) → src.at j < 256)
    → 4 * (width * height / 2) ≤ src.size
    → 4 * (width * height / 2) ≤ dst.size
    → (dst' : Bytes) × (conv_2vuy_to_yuy2 width height src dst ≡ some (pos 0, dst'))
      × Swapped src dst dst' (width * height / 2)
unfolding conv_2vuy_to_yuy2
conv_2vuy_to_yuy2-Swapped width height src dst bytes src_fits dst_fits =
    let n = width * height / 2 in
    let (st, ran, inv) =
      repeat_inv (Invariant src dst n bytes src_fits dst_fits) (swap_word src) n
        (keep src dst n bytes src_fits dst_fits) (record { dst = dst; s = 0; d = 0 })
        (
          record { same_size = refl; inside = λ i l. absurd (omega arith); outside = λ i l. refl },
          refl,
          refl,
        ) in
    (st.dst, rw ran refl, inv.0)
