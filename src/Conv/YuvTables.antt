-- ===== src/Conv/YuvTables.antt =====
-- The tables of src/conv_to_rgb.c, and what a lookup in them gives.
use libvidcap.Base.{
  ℕ, ◌+◌, ◌-◌, ◌*◌, ◌<◌, ◌≤◌, ◌≡◌, refl, ap, arith, Bool, true, Option, none, some, ltb, lt→ltb,
  if◌then◌else◌, ℤ, pos, negsuc, ◌+ℤ◌, ◌-ℤ◌, ◌*ℤ◌, pos_part, neg_part, min, Bytes, load,
}
use libvidcap.Conv.Destride.{◌>>=◌}
use libvidcap.Conv.Pixels.{load_lem}
use libvidcap.Conv.Words.{rgb_word}
use libvidcap.Conv.Luma.{shift8}

-- The file's static variables.
pub record Tables : Type 0 where
  pub initialized : Bool
  pub y : ℕ → ℤ
  pub r : ℕ → ℤ
  pub b : ℕ → ℤ
  pub g1 : ℕ → ℤ
  pub g2 : ℕ → ℤ
  pub clip : ℕ → ℕ
  pub clip8 : ℕ → ℕ
  pub clip16 : ℕ → ℕ

-- The three loops over a clip table, for entries `scale` apart.
abbrev pub clip_entries : ℕ → ℕ → ℕ
clip_entries scale i =
    if ltb i 277 then 0 else if ltb i (277 + 256) then (i - 277) * scale else 255 * scale

unfoldable pub luma_entry : ℕ → ℤ
luma_entry i = shift8 (pos 298 *ℤ (pos i -ℤ pos 16) +ℤ pos 128)

unfoldable pub red_entry : ℕ → ℤ
red_entry i = shift8 (pos 409 *ℤ (pos i -ℤ pos 128))

unfoldable pub blue_entry : ℕ → ℤ
blue_entry i = shift8 (pos 516 *ℤ (pos i -ℤ pos 128))

unfoldable pub green1_entry : ℕ → ℤ
green1_entry i = shift8 (negsuc 99 *ℤ (pos i -ℤ pos 128))

unfoldable pub green2_entry : ℕ → ℤ
green2_entry i = shift8 (negsuc 207 *ℤ (pos i -ℤ pos 128))

-- What the loops leave. Each entry is a function of its index.
pub init_yuv2rgb_tables : Tables
init_yuv2rgb_tables = record {
  initialized = true;
  y = luma_entry;
  r = red_entry;
  b = blue_entry;
  g1 = green1_entry;
  g2 = green2_entry;
  clip = clip_entries 1;
  clip8 = clip_entries 256;
  clip16 = clip_entries 65536;
}

-- `if (!tables_initialized) init_yuv2rgb_tables()`
unfoldable pub prepared : Tables → Tables
prepared t = if t.initialized then t else init_yuv2rgb_tables

-- Ready tables stay as they are.
pub prepared_init : prepared init_yuv2rgb_tables ≡ init_yuv2rgb_tables
unfolding prepared init_yuv2rgb_tables
prepared_init = refl

-- `yuv2rgb_y[i]` and the like, of 256 entries.
abbrev pub entry : (ℕ → ℤ) → ℕ → Option ℤ
entry table i = if ltb i 256 then some (table i) else none

-- `yuv2rgb_clip[i]` and the like, of `CLIP_SIZE` entries; a negative index is a fault.
abbrev pub clip_entry : (ℕ → ℕ) → ℤ → Option ℕ
clip_entry table (pos i) = if ltb i 811 then some (table i) else none
clip_entry table (negsuc i) = none

-- `COMPOSE_RGB`. The bits of the four terms are disjoint, so `|` is `+`.
unfoldable pub compose_rgb : Tables → ℤ → ℤ → ℤ → ℤ → Option ℕ
compose_rgb t yc rc gc bc = do
  r ← clip_entry t.clip16 (yc +ℤ rc)
  g ← clip_entry t.clip8 (yc +ℤ gc)
  b ← clip_entry t.clip (yc +ℤ bc)
  some (4278190080 + r + g + b)

-- The word for the luma byte at `py` and the chroma bytes at `pu` and `pv`.
unfoldable pub yuv_word : Tables → Bytes → ℕ → ℕ → ℕ → Option ℕ
yuv_word t src py pu pv = do
  v ← load src pv
  u ← load src pu
  y ← load src py
  rc ← entry t.r v
  g1 ← entry t.g1 v
  g2 ← entry t.g2 u
  bc ← entry t.b u
  luma ← entry t.y y
  compose_rgb t (pos 277 +ℤ luma) rc (g1 +ℤ g2) bc

-- The nearest byte.
abbrev pub clamp : ℤ → ℕ
clamp (pos n) = min n 255
clamp (negsuc n) = 0

-- The word of a colour, by the formulas, clamped.
unfoldable pub colour_word : ℕ → ℕ → ℕ → ℕ
colour_word y u v =
    rgb_word (clamp (luma_entry y +ℤ blue_entry u))
      (clamp (luma_entry y +ℤ (green1_entry v +ℤ green2_entry u)))
      (clamp (luma_entry y +ℤ red_entry v))

abbrev Within : ℕ → ℤ → ℕ → Type 0
Within low a high = (neg_part a ≤ low) × (pos_part a ≤ high)

module _ (i : ℕ) (h : i < 256) where
  luma_range : Within 19 (luma_entry i) 278
  unfolding luma_entry ◌+ℤ◌ ◌-ℤ◌ ◌*ℤ◌
  luma_range = ground arith

  red_range : Within 205 (red_entry i) 202
  unfolding red_entry ◌+ℤ◌ ◌-ℤ◌ ◌*ℤ◌
  red_range = ground arith

  blue_range : Within 258 (blue_entry i) 255
  unfolding blue_entry ◌+ℤ◌ ◌-ℤ◌ ◌*ℤ◌
  blue_range = ground arith

  green1_range : Within 50 (green1_entry i) 50
  unfolding green1_entry ◌+ℤ◌ ◌-ℤ◌ ◌*ℤ◌
  green1_range = ground arith

  green2_range : Within 104 (green2_entry i) 104
  unfolding green2_entry ◌+ℤ◌ ◌-ℤ◌ ◌*ℤ◌
  green2_range = ground arith

-- A lookup in a clip table, for an index that is in range.
clip_lem :
    (scale : ℕ) (a c : ℤ)
    → Within 19 a 278
    → Within 258 c 255
    → clip_entry (clip_entries scale) (pos 277 +ℤ a +ℤ c) ≡ some (clamp (a +ℤ c) * scale)
unfolding ◌+ℤ◌
clip_lem scale a c h k = ground arith

green_range : (v u : ℕ) → v < 256 → u < 256 → Within 258 (green1_entry v +ℤ green2_entry u) 255
unfolding ◌+ℤ◌
green_range v u h k = let a = green1_range v h in let b = green2_range u k in ground arith

-- For luma and chroma bytes every index lies in its table, and the word is the clamped colour.
compose_rgb_lem :
    (y u v : ℕ)
    → y < 256
    → u < 256
    → v < 256
    → compose_rgb init_yuv2rgb_tables
        (pos 277 +ℤ luma_entry y)
        (red_entry v)
        (green1_entry v +ℤ green2_entry u)
        (blue_entry u)
      ≡ some (colour_word y u v)
unfolding compose_rgb init_yuv2rgb_tables colour_word
compose_rgb_lem y u v h k l =
    let luma = luma_range y h in
    let (low, high) = red_range v l in
    let red = clip_lem 65536 (luma_entry y) (red_entry v) luma (omega arith, omega arith) in
    let green =
      clip_lem 256 (luma_entry y) (green1_entry v +ℤ green2_entry u) luma (green_range v u l k) in
    let blue = clip_lem 1 (luma_entry y) (blue_entry u) luma (blue_range u k) in
    rw (red, green, blue) (ap some (omega arith))

pub yuv_word_lem :
    (src : Bytes) (py pu pv : ℕ)
    → ((j : ℕ) → src.at j < 256)
    → py < src.size
    → pu < src.size
    → pv < src.size
    → yuv_word init_yuv2rgb_tables src py pu pv
      ≡ some (colour_word (src.at py) (src.at pu) (src.at pv))
unfolding yuv_word init_yuv2rgb_tables
yuv_word_lem src py pu pv bytes a b c =
    let ey : ltb (src.at py) 256 ≡ true = lt→ltb _ _ (bytes py) in
    let eu : ltb (src.at pu) 256 ≡ true = lt→ltb _ _ (bytes pu) in
    let ev : ltb (src.at pv) 256 ≡ true = lt→ltb _ _ (bytes pv) in
    rw (load_lem src pv c, load_lem src pu b, load_lem src py a, ey, eu, ev)
      (compose_rgb_lem (src.at py) (src.at pu) (src.at pv) (bytes py) (bytes pu) (bytes pv))
