-- ===== src/Tests.antt =====
-- Concrete runs: each theorem that has hypotheses, at an input where they hold.
mod Machine
mod Issuing
mod Kernel
mod Listing
mod Serving
mod Panels
mod Probing
mod Transfers
mod Collecting
mod Linking
mod Ranks
mod Repairing
mod Tunnels
mod Exceptions
