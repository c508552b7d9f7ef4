-- ===== src/Examples.antt =====
-- Concrete devices, backends and changes, to which the theorems are applied.
mod Values
mod Devices
mod Etcd
mod Directory
mod Converge
mod Configured
mod Discovery
mod K8s
mod Withdrawn
mod Scans
mod Service
mod Syncthing
mod Sending
mod Change
mod Main
mod Started
mod Settled
mod Expiry
