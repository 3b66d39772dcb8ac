-- ===== src/Operator.antt =====
-- internal/operator: the Kubernetes operator's translation of Flag resources to the IR, its checks of
-- rollout policies, and the conditions that it reports.
pub mod Resources
pub mod Translate
pub mod Policies
pub mod Conditions
pub mod Api
pub mod Sync
pub mod Served
pub mod Pass
pub mod Reconcile
