-- ===== src/Conv/Words.antt =====
-- Stores of 32-bit words, least significant byte first, and loops that go straight through both
-- blocks.
use libvidcap.Base.{
  ℕ, suc, ◌+◌, ◌*◌, ◌<◌, ◌≤◌, ◌≡◌, sym, ap, ◌∙◌, arith, Option, some, List, ◌∷◌, Bytes,
}
use libvidcap.Conv.Destride.{◌>>=◌}
use libvidcap.Conv.Pixels.{
  Write, write, ◌&◌, Told, Apart, Filled, kernel, kernel_lem, nothing-Filled, weaken,
}
use libvidcap.Conv.Yuy2.{byte_of}
use libvidcap.Conv.Grid.{row_room}

-- `*p = w` for an `unsigned int`, before the stores of `l`.
abbrev pub write_word : ℕ → Option ℕ → List Write → List Write
write_word p o l =
    write p (o >>= λ w. some (byte_of w 0))
    ∷ write (p + 1) (o >>= λ w. some (byte_of w 1))
    ∷ write (p + 2) (o >>= λ w. some (byte_of w 2))
    ∷ write (p + 3) (o >>= λ w. some (byte_of w 3))
    ∷ l

-- `0xff000000 | r << 16 | g << 8 | b`, of bytes.
abbrev pub rgb_word : ℕ → ℕ → ℕ → ℕ
rgb_word b g r = 4278190080 + r * 65536 + g * 256 + b

pub rgb_word_bytes :
    (b g r : ℕ)
    → b < 256
    → g < 256
    → r < 256
    → (byte_of (rgb_word b g r) 0 ≡ b)
      × (byte_of (rgb_word b g r) 1 ≡ g)
      × (byte_of (rgb_word b g r) 2 ≡ r)
      × (byte_of (rgb_word b g r) 3 ≡ 255)
rgb_word_bytes b g r h k l = (omega arith, omega arith, omega arith, omega arith)

module _ (spec : ℕ → ℕ) (total p w : ℕ) (o : Option ℕ) (l : List Write) where
  -- A word whose bytes are those of `spec`.
  pub bytes-Told :
      o ≡ some w
      → p + 4 ≤ total
      → spec p ≡ byte_of w 0
      → spec (p + 1) ≡ byte_of w 1
      → spec (p + 2) ≡ byte_of w 2
      → spec (p + 3) ≡ byte_of w 3
      → Told spec total l
      → Told spec total (write_word p o l)
  bytes-Told e h s0 s1 s2 s3 t =
      (rw e (ap some (sym s0)), omega arith)
      & (rw e (ap some (sym s1)), omega arith)
      & (rw e (ap some (sym s2)), omega arith)
      & (rw e (ap some (sym s3)), omega arith)
      & t

module _ (spec : ℕ → ℕ) (total p b g r : ℕ) (o : Option ℕ) where
  -- The same for a word of three colours.
  pub word-Told :
      (l : List Write)
      → o ≡ some (rgb_word b g r)
      → (b < 256) × (g < 256) × (r < 256)
      → p + 4 ≤ total
      → spec p ≡ b
      → spec (p + 1) ≡ g
      → spec (p + 2) ≡ r
      → spec (p + 3) ≡ 255
      → Told spec total l
      → Told spec total (write_word p o l)
  word-Told l e (hb, hg, hr) h s0 s1 s2 s3 t =
      let (e0, e1, e2, e3) = rgb_word_bytes b g r hb hg hr in
      bytes-Told spec total p (rgb_word b g r) o l e h (s0 ∙ sym e0) (s1 ∙ sym e1) (s2 ∙ sym e2)
        (s3 ∙ sym e3) t

-- The two pointers of a loop that goes straight on.
pub record Straight : Type 0 where
  pub s : ℕ
  pub d : ℕ

abbrev pub straight_step : ℕ → ℕ → Straight → Straight
straight_step from to p = record { s = p.s + from; d = p.d + to }

abbrev pub origin : Straight
origin = record { s = 0; d = 0 }

module _ (from to n m : ℕ) (g : ℕ → ℕ) (stores : Straight → List Write) (dst : Bytes)
    (room : to * (n * m) ≤ dst.size) where
  abbrev straight_at : ℕ → Straight
  straight_at k = record { s = from * k; d = to * k }

  same_straight : (p q : Straight) → p.s ≡ q.s → p.d ≡ q.d → p ≡ q
  same_straight p q a b = λ k. record { s = a k; d = b k }

  -- `n` rows of `m` blocks, block `k` of which reads from `from * k` on and writes `to` bytes from
  -- `to * k` on.
  pub straight_kernel :
      ((k : ℕ) → k < n * m → Told g (to * (n * m)) (stores (straight_at k)))
      → ((k a : ℕ) → a < to * suc k → Apart a (stores (straight_at k)) → a < to * k)
      → (now : Bytes) × (kernel n m stores (straight_step from to) (λ p. p) origin dst ≡ some now)
        × Filled g (to * (n * m)) dst (λ a. a < to * (n * m)) now
  straight_kernel told more =
      let (now, ran, f) =
        kernel_lem g (to * (n * m)) dst room stores (straight_step from to) (λ p. p) n m
          (λ i j. straight_at (i * m + j)) (λ i j a. a < to * (i * m + j))
          (λ i j. same_straight _ _ (omega arith) (omega arith))
          (λ i. same_straight _ _ (omega arith) (omega arith))
          (λ i j h k. told (i * m + j) (omega (arith, row_room i n m h)))
          (λ i j a h k d apart. more (i * m + j) a (omega arith) apart) (λ i a h d. omega arith) dst
          (nothing-Filled (λ a d. omega arith)) in
      (
        now,
        rw⁻¹ (same_straight (straight_at (0 * m + 0)) origin (omega arith) (omega arith)) ran,
        weaken (λ a. a < to * (n * m + 0)) (λ a. a < to * (n * m)) (λ a l. omega arith) f,
      )
