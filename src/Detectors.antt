-- ===== src/Detectors.antt =====
-- internal/pii/detectors: the detectors of cards, taxpayer numbers and dates, and the helpers they
-- share. What a regular expression matches is a parameter: the engine of `regexp` is a package.
pub mod Digits
pub mod Fields
pub mod Numbers
pub mod Dates
pub mod Labels
pub mod Labelled
