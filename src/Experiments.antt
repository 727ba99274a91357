-- ===== src/Experiments.antt =====
-- Four of the repository's experiments.
pub mod Encoder
pub mod Echo
pub mod Forward
pub mod Passing
