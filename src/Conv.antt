-- ===== src/Conv.antt =====
-- src/conv.c: which conversions there are, how large a frame is, and the removal of row strides.
pub mod Table
pub mod Size
pub mod Destride
pub mod Rows
pub mod Planes
pub mod Yuy2
pub mod Pixels
pub mod Planar
pub mod Grid
pub mod Unpack
pub mod Pack
pub mod RoundTrips
pub mod Luma
pub mod FromRgb
pub mod RgbPairs
pub mod Yvu9
pub mod Words
pub mod Rgb24
pub mod BottomUp
pub mod YuvTables
pub mod ToRgb
pub mod Convert
mod Tests
mod KernelTests
