-- ===== src/LoadBalancer.antt =====
-- scales/loadbalancer: the load balancers.
pub mod Heap
pub mod HeapBalancer
pub mod Members
pub mod Aperture
pub mod ServerSet
