-- ===== src/Wrappers.antt =====
-- wrappers/: the service that runs the command line tools of a TLS library.
pub mod Connect
pub mod Output
pub mod Process
pub mod Servicer
pub mod Certs
pub mod Translation
pub mod Command
pub mod NssDb
pub mod Pair
