-- ===== src/Webhook.antt =====
-- dynamic-config-webhook: the installation's defaults, the gates and the annotation contract.
pub mod Classes
pub mod Userinfo
pub mod Contract
pub mod Refusals
pub mod Quantities
pub mod Scopes
pub mod EnvEntries
pub mod Knobs
pub mod Installation
pub mod Pod
mod Tests
