-- ===== src/Window.antt =====
-- The package window: geometry checks, text folding, window predicates and their specification
-- language.
pub mod Geometry
pub mod Fold
pub mod Match
pub mod Spec
mod Examples
