-- ===== src/External.antt =====
-- Third-party packages that the code calls: their functions are parameters of the model, and what
-- their documentation says of them stands in records of laws.
pub mod Lo
pub mod Finalizers
pub mod Client
pub mod Dns
pub mod Netlink
pub mod Server
pub mod Runtime
