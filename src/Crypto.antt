-- ===== src/Crypto.antt =====
-- crypto/: the byte layouts of keys, signatures and sealed messages.
pub mod Keys
pub mod Sealing
pub mod Dhkx
pub mod Pairing
pub mod Token
