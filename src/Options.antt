-- ===== src/Options.antt =====
-- The options of the C ABI: a record, its decoding table and its parser for each struct.
pub mod ChartRef
pub mod RenderTweaks
pub mod Install
pub mod Upgrade
pub mod Config
pub mod Release
pub mod Listing
pub mod Testing
pub mod Show
pub mod Dependency
pub mod Package
pub mod Render
pub mod Client
pub mod Repo
pub mod Transfer
pub mod Lint
pub mod Shadowing
