-- ===== src/CryptoUtil.antt =====
-- trustflow/proxy/utils/crypto_util.{h,cc}: the encrypted file format and its conversions.
pub mod Platform
pub mod Word
pub mod Block
pub mod File
pub mod Disk
pub mod Tasks
pub mod Directory
pub mod Sample
mod Tests
