-- ===== src/Rfc6052.antt =====
-- ipv6测试/rfc6052: the program that puts an IPv4 address behind a NAT64 prefix.
pub mod Address
pub mod Config
pub mod Program
mod Tests
