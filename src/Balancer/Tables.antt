-- ===== src/Balancer/Tables.antt =====
-- How the server list, the client list and the forwarding table of L4LB/LoadBalancer.c are read,
-- and what the loops over them change.
mod Slots
mod Rows
pub use Slots.*
pub use Rows.*
