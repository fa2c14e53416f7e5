-- ===== src/Tests.antt =====
-- Runs of the models on small inputs, and the theorems applied to them.
mod Fit
mod Checksum
mod Uboot
mod Lab
mod Server
mod Leases
mod Releases
mod Tftp
mod Protocol
mod Serial
mod Events
mod Ports
mod Scan
