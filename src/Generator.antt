-- ===== src/Generator.antt =====
-- pkg/generator: client configurations and Kubernetes manifests from a registry. Tokens is common.go,
-- Targets and Configs are configs.go, SecretToken, Deployment, Gateway and Manifests are manifests.go.
pub mod Tokens
pub mod SecretToken
pub mod Deployment
pub mod Workload
pub mod Gateway
pub mod GatewayFiles
pub mod Manifests
pub mod Targets
pub mod Configs
pub mod Files
pub mod TargetLaws
pub mod ConfigLaws
pub mod FileLaws
pub mod TokenLaws
pub mod ActionLaws
pub mod ManifestLaws
pub mod Tests
