-- ===== src/K8s.antt =====
-- internal/k8s: the pod cache that names the pods of this node.
pub mod PodCache
