-- ===== src/Wrapper.antt =====
-- pkg/wrapper: the operations behind the C ABI.
pub mod Strategies
pub mod Failures
pub mod Settings
pub mod Config
pub mod Charts
pub mod ChartData
pub mod Clients
pub mod Dependencies
pub mod Summaries
pub mod ChartRef
pub mod Rendering
pub mod Prologue
pub mod Install
pub mod Upgrade
pub mod Releases
pub mod Testing
pub mod Show
pub mod Repos
