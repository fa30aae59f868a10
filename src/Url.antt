-- ===== src/Url.antt =====
-- pkg/alexaverify/url.go, with what it uses of net/url, path and strings.
pub mod Clean
pub mod Escape
pub mod Host
pub mod Normalize
pub mod Segments
pub mod Resolve
pub mod Cleaned
pub mod Separator
pub mod Under
pub mod Escaping
pub mod Bytes
pub mod Accept
pub mod Key
mod Examples
