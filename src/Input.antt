-- ===== src/Input.antt =====
-- The package input, and the key names of internal/keymap that it shares.
pub mod Keymap
pub mod Keysend
pub mod Mask
pub mod Keyboard
