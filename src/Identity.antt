-- ===== src/Identity.antt =====
-- core/mtls.go: the certificates of a node. ECDSA, X.509 and PEM are parameters, as are the errors
-- of the file system. Times are in nanoseconds since 1970; one call asks the clock once.
pub mod Keys
pub mod Store
pub mod Load
pub mod Files
pub mod Held
pub mod RoundTrip
mod Tests
