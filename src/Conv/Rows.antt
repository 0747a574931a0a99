-- ===== src/Conv/Rows.antt =====
-- What a loop over rows does, byte by byte.
use mathlib.Core.Path.{subst}
use native.Mathlib.Decide.{dec_lt, ℕ_discrete}
use libvidcap.Base.{
  ℕ, suc, ◌+◌, ◌-◌, ◌*◌, ◌/◌, ◌≤◌, ◌<◌, ◌≡◌, refl, ap, ◌∙◌, arith, ◌⊎◌, inl, none, some, Bytes,
  copied, memcpy, memcpy_lem, repeat, repeat_inv,
}
use libvidcap.Conv.Destride.{Rows, copy_two, copy_rows, ◌>>=◌}

pub row_lt : (r m c w : ℕ) → r < m → c < w → r * w + c < m * w
row_lt r m c w h k = grind arith

-- Two rows copied one after the other, to `a` and to `b`.
abbrev pub two_copied : (ℕ → ℕ) → ℕ → ℕ → (ℕ → ℕ) → ℕ → ℕ → ℕ → ℕ → ℕ
two_copied f a b src x y w = copied (copied f a src x w) b src y w

module _ (f : ℕ → ℕ) (a b : ℕ) (src : ℕ → ℕ) (x y w : ℕ) (next : b ≡ a + w) where
  two_copied_first :
      (k m c : ℕ) → k ≡ a + c → m ≡ x + c → c < w → two_copied f a b src x y w k ≡ src m
  two_copied_first k m c e g h = let d : x + (k - a) ≡ m = omega arith in ground arith

  two_copied_second :
      (k m c : ℕ) → k ≡ b + c → m ≡ y + c → c < w → two_copied f a b src x y w k ≡ src m
  two_copied_second k m c e g h = let d : y + (k - b) ≡ m = omega arith in ground arith

  two_copied_outside : (k : ℕ) → (k < a) ⊎ (b + w ≤ k) → two_copied f a b src x y w k ≡ f k
  two_copied_outside k h = ground arith

-- `dst'` is `dst` with `rows` rows of `w` bytes from `p` on taken from rows `stride` bytes apart
-- from `q` on in `src`, and no other byte changed.
pub record HasRows (dst' dst : Bytes) (p : ℕ) (src : Bytes) (q w stride rows : ℕ) : Type 0 where
  pub same_size : dst'.size ≡ dst.size
  pub inside : (r c : ℕ) → r < rows → c < w → dst'.at (p + r * w + c) ≡ src.at (q + r * stride + c)
  pub outside : (k : ℕ) → (k < p) ⊎ (p + rows * w ≤ k) → dst'.at k ≡ dst.at k

module _ (w stride : ℕ) (dst : Bytes) (p : ℕ) (src : Bytes) (q n : ℕ)
    (room : p + 2 * n * w ≤ dst.size)
    (reach : (r : ℕ) → r < 2 * n → q + r * stride + w ≤ src.size) where
  -- The state of the loop after `i` rounds.
  record At (i : ℕ) (s : Rows) : Type 0 where
    dst_even : s.dst_even ≡ p + 2 * i * w
    dst_odd : s.dst_odd ≡ p + 2 * i * w + w
    src_even : s.src_even ≡ q + 2 * i * stride
    src_odd : s.src_odd ≡ q + 2 * i * stride + stride
    rows : HasRows s.dst dst p src q w stride (2 * i)

  after : Rows → Rows
  after s = record {
    dst = record (s.dst) {
      at = two_copied s.dst.at s.dst_even s.dst_odd src.at s.src_even s.src_odd w;
    };
    dst_even = s.dst_even + 2 * w;
    dst_odd = s.dst_odd + 2 * w;
    src_even = s.src_even + 2 * stride;
    src_odd = s.src_odd + 2 * stride;
  }

  row_fits : (i : ℕ) → i < n → 2 * i * w + w + w ≤ 2 * n * w
  row_fits i h = grind arith

  copy_two-eq : (i : ℕ) (s : Rows) → i < n → At i s → copy_two w stride src s ≡ some (after s)
  unfolding copy_two after
  copy_two-eq i s h a =
      let first : Bytes = record (s.dst) { at = copied s.dst.at s.dst_even src.at s.src_even w } in
      rw (
        memcpy_lem s.dst s.dst_even src s.src_even w (omega (arith, row_fits i h, a.rows.same_size))
            (omega (arith, reach (2 * i) (omega arith))),
        memcpy_lem first s.dst_odd src s.src_odd w (omega (arith, row_fits i h, a.rows.same_size))
            (omega (arith, reach (2 * i + 1) (omega arith))),
        ◌>>=◌,
      )

  inside_after :
      (i : ℕ) (s : Rows)
      → At i s
      → (r c : ℕ) → r < 2 * suc i
      → c < w
      → (after s).dst.at (p + r * w + c) ≡ src.at (q + r * stride + c)
  unfolding after
  inside_after i s a r c h k =
      let next : s.dst_odd ≡ s.dst_even + w = omega arith in
      elim (dec_lt r (2 * i)) [
        | yes old ↦
            two_copied_outside s.dst.at s.dst_even s.dst_odd src.at s.src_even s.src_odd w next
              (p + r * w + c) (inl (omega (arith, row_lt r (2 * i) c w old k)))
            ∙ a.rows.inside r c old k
        | no new ↦ elim (ℕ_discrete r (2 * i)) [
          | yes e ↦
              two_copied_first s.dst.at s.dst_even s.dst_odd src.at s.src_even s.src_odd w next _ _
                c (omega (arith, ap (λ (t : ℕ). t * w) e))
                (omega (arith, ap (λ (t : ℕ). t * stride) e)) k
          | no ne ↦
              let e : r ≡ 2 * i + 1 = omega arith in
              two_copied_second s.dst.at s.dst_even s.dst_odd src.at s.src_even s.src_odd w next _ _
                c (omega (arith, ap (λ (t : ℕ). t * w) e))
                (omega (arith, ap (λ (t : ℕ). t * stride) e)) k
        ]
      ]

  two_more : (i : ℕ) (s : Rows) → i < n → At i s → At (suc i) (after s)
  unfolding after
  two_more i s h a =
      let next : s.dst_odd ≡ s.dst_even + w = omega arith in
      record {
        dst_even = omega arith;
        dst_odd = omega arith;
        src_even = omega arith;
        src_odd = omega arith;
        rows = record {
          same_size = a.rows.same_size;
          inside = inside_after i s a;
          outside = λ k far.
              two_copied_outside s.dst.at s.dst_even s.dst_odd src.at s.src_even s.src_odd w next k
                (omega arith)
              ∙ a.rows.outside k (omega arith);
        };
      }

  -- With room in both blocks the loop copies `2 * n` rows and faults nowhere.
  rows_copied :
      (s' : Rows) × (repeat n
          (copy_two w stride src)
          (record { dst = dst; dst_even = p; dst_odd = p + w; src_even = q; src_odd = q + stride })
        ≡ some s')
      × At n s'
  rows_copied =
      repeat_inv At (copy_two w stride src) n
        (λ i s h a. (after s, copy_two-eq i s h a, two_more i s h a)) _
        (record {
          dst_even = omega arith;
          dst_odd = omega arith;
          src_even = omega arith;
          src_odd = omega arith;
          rows = record { same_size = refl; inside = λ r c h. elim h [ ]; outside = λ k h. refl };
        })

-- `height / 2` rounds put `height / 2 * 2` rows in place, if both blocks have room for them.
pub copy_rows-HasRows :
    (w height stride : ℕ) (dst : Bytes) (p : ℕ) (src : Bytes) (q : ℕ)
    → p + height / 2 * 2 * w ≤ dst.size
    → ((r : ℕ) → r < height / 2 * 2 → q + r * stride + w ≤ src.size)
    → (dst' : Bytes) × (copy_rows w height stride dst p src q ≡ some dst')
      × HasRows dst' dst p src q w stride (height / 2 * 2)
unfolding copy_rows
copy_rows-HasRows w height stride dst p src q room reach =
    let n = height / 2 in
    let twice : 2 * n ≡ n * 2 = omega arith in
    let (s, ran, done) =
      rows_copied w stride dst p src q n (omega arith) (λ r h. reach r (omega arith)) in
    (s.dst, rw (ran, ◌>>=◌), subst (λ k. HasRows s.dst dst p src q w stride k) twice done.rows)

memcpy-fault :
    (dst : Bytes) (p : ℕ) (src : Bytes) (q n : ℕ) → src.size < q + n → memcpy dst p src q n ≡ none
unfolding memcpy
memcpy-fault dst p src q n h = ground arith

-- A first row that does not lie inside the source is a fault.
pub copy_rows-fault :
    (w height stride : ℕ) (dst : Bytes) (p : ℕ) (src : Bytes) (q : ℕ)
    → 2 ≤ height
    → src.size < q + w
    → copy_rows w height stride dst p src q ≡ none
unfolding copy_rows copy_two repeat
copy_rows-fault w height stride dst p src q h out =
    let e : height / 2 ≡ suc (height / 2 - 1) = omega arith in
    rw (e, repeat, memcpy-fault dst p src q w out, ◌>>=◌)
