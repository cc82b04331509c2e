-- ===== src/Verification/Csv.antt =====
-- verification/csv/csv_verifier.cc: reports of Hygon CSV. A C struct is its bytes, and the layout of
-- Hygon's header `attestation.h`, which the repository does not hold, is a parameter.
pub mod Layout
pub mod Mask
pub mod Chain
pub mod Report
