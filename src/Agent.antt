-- ===== src/Agent.antt =====
-- dynamic-config-agent/src: the container that renders a pod's configuration and keeps it current.
pub mod Metrics
pub mod Histogram
pub mod Base64
pub mod Flat
pub mod Formats
pub mod Notify
pub mod Arguments
pub mod Canary
pub mod Files
pub mod Publishing
pub mod Sidecar
pub mod Rendering
