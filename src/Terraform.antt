-- ===== src/Terraform.antt =====
-- pkg/utils/terraform_utils.go: the terraform executable, its plugin cache and its files.
pub mod Retry
pub mod Cache
pub mod Run
pub mod Files
pub mod Effects
pub mod Laws
pub mod Outcome
pub mod Sure
pub mod Waits
pub mod Removes
pub mod Pattern
pub mod Provider
pub mod Held
pub mod Serial
