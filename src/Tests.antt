-- ===== src/Tests.antt =====
-- Concrete parameters and data, and each property at them.
mod Text
mod Objects
mod Server
mod Cluster
mod Startup
mod Iputil
mod Pods
mod Networks
mod Admission
mod Dns
mod Modules
mod Kernel
mod Tunnels
mod TunnelRoutes
