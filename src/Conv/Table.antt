-- ===== src/Conv/Table.antt =====
-- The table of conversions, and its lookups by fourcc and by function.
use Prim.Native.String.{String}
use libvidcap.Base.{
  ◌≡◌, refl, arith, Bool, ◌&&◌, Option, none, some, List, [], ◌∷◌, eqb_ℤ, eqb_ℤ_iff, if◌then◌else◌,
  ℤ, ◌↔◌, ℕ, ◌==◌,
}
use libvidcap.Format.{
  fourcc_i420, fourcc_yuy2, fourcc_rgb32, fourcc_yvu9, fourcc_2vuy, fourcc_rgb24,
  fourcc_bottom_up_rgb24,
}

-- The functions that the table points at: `conv_func` is a pointer to one of them.
pub data ConvFunc : Type 0 where
  i420_to_rgb32 yuy2_to_rgb32 rgb32_to_i420 yuy2_to_i420 i420_to_yuy2 rgb32_to_yuy2 : ConvFunc
  conv_2vuy_to_yuy2 conv_2vuy_to_i420 rgb24_to_rgb32 bottom_up_rgb24_to_rgb32 : ConvFunc
  yvu9_to_i420 : ConvFunc

-- `struct conv_info`
pub record ConvInfo : Type 0 where
  pub src_fourcc : ℤ
  pub dst_fourcc : ℤ
  pub func : ConvFunc
  pub name : String

abbrev entry : ℤ → ℤ → ConvFunc → String → ConvInfo
entry s d f n = record { src_fourcc = s; dst_fourcc = d; func = f; name = n }

-- `conv_list`
pub conv_list : List ConvInfo
conv_list =
    entry fourcc_i420 fourcc_rgb32 i420_to_rgb32 "i420->rgb32"
    ∷ entry fourcc_yuy2 fourcc_rgb32 yuy2_to_rgb32 "yuy2->rgb32"
    ∷ entry fourcc_rgb32 fourcc_i420 rgb32_to_i420 "rgb32->i420"
    ∷ entry fourcc_yuy2 fourcc_i420 yuy2_to_i420 "yuy2->i420"
    ∷ entry fourcc_i420 fourcc_yuy2 i420_to_yuy2 "i420->yuy2"
    ∷ entry fourcc_rgb32 fourcc_yuy2 rgb32_to_yuy2 "rgb32->yuy2"
    ∷ entry fourcc_2vuy fourcc_yuy2 conv_2vuy_to_yuy2 "2vuy->yuy2"
    ∷ entry fourcc_2vuy fourcc_i420 conv_2vuy_to_i420 "2vuy->i420"
    ∷ entry fourcc_rgb24 fourcc_rgb32 rgb24_to_rgb32 "rgb24->rgb32"
    ∷ entry fourcc_bottom_up_rgb24 fourcc_rgb32 bottom_up_rgb24_to_rgb32 "bottom-up rgb24->rgb32"
    ∷ entry fourcc_yvu9 fourcc_i420 yvu9_to_i420 "yvu9->i420"
    ∷ []

-- The loop of `conv_conversion_func_get`.
find_func : ℤ → ℤ → List ConvInfo → Option ConvFunc
find_func s d [] = none
find_func s d (ci ∷ l) =
    if eqb_ℤ s ci.src_fourcc && eqb_ℤ d ci.dst_fourcc then some ci.func else find_func s d l

-- `conv_conversion_func_get`; `none` is a null pointer.
unfoldable pub conversion_func_get : ℤ → ℤ → Option ConvFunc
unfolding find_func conv_list
conversion_func_get src_fourcc dst_fourcc = find_func src_fourcc dst_fourcc conv_list

-- A number for each function, in place of its address.
address : ConvFunc → ℕ
address i420_to_rgb32 = 0
address yuy2_to_rgb32 = 1
address rgb32_to_i420 = 2
address yuy2_to_i420 = 3
address i420_to_yuy2 = 4
address rgb32_to_yuy2 = 5
address conv_2vuy_to_yuy2 = 6
address conv_2vuy_to_i420 = 7
address rgb24_to_rgb32 = 8
address bottom_up_rgb24_to_rgb32 = 9
address yvu9_to_i420 = 10

-- Equality of function pointers.
same_func : ConvFunc → ConvFunc → Bool
unfolding address
same_func f g = address f == address g

find_name : ConvFunc → List ConvInfo → String
find_name f [] = "(ERROR: Conversion name not found)"
find_name f (ci ∷ l) = if same_func ci.func f then ci.name else find_name f l

-- `conv_conversion_name_get`
unfoldable pub conversion_name_get : ConvFunc → String
unfolding find_name conv_list same_func
conversion_name_get function = find_name function conv_list

-- What a conversion reads and writes.
abbrev pub reads : ConvFunc → ℤ
reads i420_to_rgb32 = fourcc_i420
reads yuy2_to_rgb32 = fourcc_yuy2
reads rgb32_to_i420 = fourcc_rgb32
reads yuy2_to_i420 = fourcc_yuy2
reads i420_to_yuy2 = fourcc_i420
reads rgb32_to_yuy2 = fourcc_rgb32
reads conv_2vuy_to_yuy2 = fourcc_2vuy
reads conv_2vuy_to_i420 = fourcc_2vuy
reads rgb24_to_rgb32 = fourcc_rgb24
reads bottom_up_rgb24_to_rgb32 = fourcc_bottom_up_rgb24
reads yvu9_to_i420 = fourcc_yvu9

abbrev pub writes : ConvFunc → ℤ
writes i420_to_rgb32 = fourcc_rgb32
writes yuy2_to_rgb32 = fourcc_rgb32
writes rgb32_to_i420 = fourcc_i420
writes yuy2_to_i420 = fourcc_i420
writes i420_to_yuy2 = fourcc_yuy2
writes rgb32_to_yuy2 = fourcc_yuy2
writes conv_2vuy_to_yuy2 = fourcc_yuy2
writes conv_2vuy_to_i420 = fourcc_i420
writes rgb24_to_rgb32 = fourcc_rgb32
writes bottom_up_rgb24_to_rgb32 = fourcc_rgb32
writes yvu9_to_i420 = fourcc_i420

abbrev Honest : List ConvInfo → Type 0
Honest [] = Unit {0}
Honest (ci ∷ l) = (ci.src_fourcc ≡ reads ci.func) × (ci.dst_fourcc ≡ writes ci.func) × Honest l

conv_list-Honest : Honest conv_list
unfolding conv_list
conv_list-Honest = ground arith

find_func-reads :
    (s d : ℤ) {f : ConvFunc} (l : List ConvInfo)
    → Honest l
    → find_func s d l ≡ some f
    → (s ≡ reads f) × (d ≡ writes f)
unfolding find_func
find_func-reads s d [] h e = cc
find_func-reads s d {f} (ci ∷ l) h e =
    ground
      (arith, eqb_ℤ_iff s ci.src_fourcc, eqb_ℤ_iff d ci.dst_fourcc, find_func-reads s d {f = f} l)

find_func_complete : (f : ConvFunc) → find_func (reads f) (writes f) conv_list ≡ some f
unfolding find_func conv_list
find_func_complete i420_to_rgb32 = refl
find_func_complete yuy2_to_rgb32 = refl
find_func_complete rgb32_to_i420 = refl
find_func_complete yuy2_to_i420 = refl
find_func_complete i420_to_yuy2 = refl
find_func_complete rgb32_to_yuy2 = refl
find_func_complete conv_2vuy_to_yuy2 = refl
find_func_complete conv_2vuy_to_i420 = refl
find_func_complete rgb24_to_rgb32 = refl
find_func_complete bottom_up_rgb24_to_rgb32 = refl
find_func_complete yvu9_to_i420 = refl

-- A function is found for a pair of fourccs exactly when it is the one that reads the first and
-- writes the second.
pub conversion_func_get_iff :
    (s d : ℤ) (f : ConvFunc) → (conversion_func_get s d ≡ some f) ↔ ((s ≡ reads f) × (d ≡ writes f))
unfolding conversion_func_get
conversion_func_get_iff s d f = (
  λ e. find_func-reads s d conv_list conv_list-Honest e,
  λ h. rw (h.0, h.1) (find_func_complete f),
)
