-- ===== src/Conv/Tests.antt =====
-- Runs of the conversion table, the sizes and the destriding, and the theorems at concrete inputs.
use libvidcap.Base.{
  ◌%◌, ℕ, ◌≡◌, ◌↔◌, refl, arith, some, pos, int32, ◌*ℤ◌, Bytes, repeat, memcpy, load,
}
use libvidcap.Format.{fourcc_i420, fourcc_yuy2, fourcc_rgb32, fourcc_rgb24}
use libvidcap.Conv.Table.{
  conversion_func_get, conversion_name_get, conversion_func_get_iff, yuy2_to_i420, reads, writes,
}
use libvidcap.Conv.Size.{fmt_size_get}
use libvidcap.Conv.Destride.{
  destridify, destridify_packed, destride_packed, copy_rows, copy_two, ◌>>=◌,
}
use libvidcap.Conv.Yuy2.{Swapped, conv_2vuy_to_yuy2, conv_2vuy_to_yuy2-Swapped}
use libvidcap.Conv.Rows.{HasRows}
use libvidcap.Conv.Planes.{destridify-HasRows, destridify-i420, HasPlane}

name-yuy2_to_i420 : conversion_name_get yuy2_to_i420 ≡ "yuy2->i420"
unfolding conversion_name_get
name-yuy2_to_i420 = refl

fmt_size_get_overflow : fmt_size_get (pos 32768) (pos 32768) fourcc_rgb32 ≡ pos 0
unfolding fmt_size_get int32 ◌*ℤ◌
fmt_size_get_overflow = refl

conversion_func_get_iff_example :
    (conversion_func_get fourcc_yuy2 fourcc_i420 ≡ some yuy2_to_i420)
    ↔ ((fourcc_yuy2 ≡ reads yuy2_to_i420) × (fourcc_i420 ≡ writes yuy2_to_i420))
conversion_func_get_iff_example = conversion_func_get_iff fourcc_yuy2 fourcc_i420 yuy2_to_i420

-- Each byte of the block is its own offset.
abbrev counting : ℕ → Bytes
counting n = record { size = n; at = λ i. i }

abbrev zeros : ℕ → Bytes
zeros n = record { size = n; at = λ i. 0 }

destridify_two_rows :
    (destridify 1 2 fourcc_rgb24 4 (counting 8) (zeros 6) >>= λ r. load r.1 4) ≡ some 5
unfolding destridify destridify_packed destride_packed copy_rows copy_two load repeat memcpy
destridify_two_rows = refl

destridify-HasRows_example :
    (dst' : Bytes) × (destridify 1 2 fourcc_rgb24 4 (counting 8) (zeros 6) ≡ some (pos 0, dst'))
    × HasRows dst' (zeros 6) 0 (counting 8) 0 3 4 2
destridify-HasRows_example =
    destridify-HasRows 1 2 fourcc_rgb24 4 (counting 8) (zeros 6) (omega arith) (omega arith)
      (omega arith) (omega arith)

destridify-i420_example :
    (dst' : Bytes) × (destridify 4 4 fourcc_i420 8 (counting 64) (zeros 24) ≡ some (pos 0, dst'))
    × HasPlane dst' 0 (counting 64) (record { width = 4; height = 4; stride = 8; start = 0 })
    × HasPlane dst' 16 (counting 64) (record { width = 2; height = 2; stride = 4; start = 32 })
    × HasPlane dst' 20 (counting 64) (record { width = 2; height = 2; stride = 4; start = 40 })
destridify-i420_example =
    destridify-i420 4 4 8 (counting 64) (zeros 24) (omega arith) (omega arith) (omega arith)

-- Each byte of the block is its own offset, as a byte.
abbrev offsets : ℕ → Bytes
offsets n = record { size = n; at = λ i. i % 256 }

conv_2vuy_to_yuy2-Swapped_example :
    (dst' : Bytes) × (conv_2vuy_to_yuy2 2 2 (offsets 8) (zeros 8) ≡ some (pos 0, dst'))
    × Swapped (offsets 8) (zeros 8) dst' 2
conv_2vuy_to_yuy2-Swapped_example =
    conv_2vuy_to_yuy2-Swapped 2 2 (offsets 8) (zeros 8) (λ j. omega arith) (omega arith)
      (omega arith)

swapped_first : (conv_2vuy_to_yuy2 2 2 (offsets 8) (zeros 8) >>= λ r. load r.1 0) ≡ some 1
unfolding conv_2vuy_to_yuy2 repeat load
swapped_first = refl
