-- ===== src/Schema.antt =====
-- schema.py: the typed snapshot that inspectors fill and renderers read.
mod Documents
mod Fleet
mod Rpm
mod Config
mod Network
mod Workloads
mod Software
mod Security
mod Snapshot
unfoldable pub use Documents.*
pub use Fleet.*
pub use Rpm.*
pub use Config.*
pub use Network.*
pub use Workloads.*
pub use Software.*
pub use Security.*
pub use Snapshot.*
