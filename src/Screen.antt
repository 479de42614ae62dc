-- ===== src/Screen.antt =====
-- screen: the sizes of capture buffers, the scaling of coordinates, and the decoding of pixels.
pub mod Geometry
pub mod Bounds
pub mod Pixels
mod Slices
mod Swapped
mod Rows
pub mod Decoded
mod Examples
