-- ===== src/Balancer/Choice.antt =====
-- What `select_serv` of L4LB/LoadBalancer.c returns, for each algorithm.
pub mod Cyclic
pub mod Scan
pub mod Least
pub mod Selected
