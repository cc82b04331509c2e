-- ===== src/Verification.antt =====
-- trustflow/attestation/verification: reports are parsed, their platforms verified, and their
-- attributes held against a policy.
pub mod Stoi
pub mod Attributes
pub mod Csv
pub mod Dcap
pub mod Sgx2
pub mod Tdx
pub mod Factory
pub mod Wrapper
mod Tests
