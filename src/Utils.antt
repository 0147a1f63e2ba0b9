-- ===== src/Utils.antt =====
-- pkg/utils/kops_utils.go: the kOps library, secrets, owners, credentials and validation.
pub mod Features
pub mod Cluster
pub mod Objects
pub mod Secrets
pub mod Validation
pub mod Effects
pub mod Verdict
pub mod Lenient
pub mod Stored
pub mod Unshared
