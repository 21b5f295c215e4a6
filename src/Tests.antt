-- ===== src/Tests.antt =====
-- Runs of the model at concrete inputs, and the theorems at inputs that meet their hypotheses.
mod Linear
mod Matrix
mod Cache
mod Masks
mod Search
mod Steps
mod Twobits
mod Updates
mod Degrees
mod Slices
