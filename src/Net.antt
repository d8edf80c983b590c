-- ===== src/Net.antt =====
-- Go's package net, as far as the code uses it.
pub mod Bytes
pub mod Text
pub mod Masks
