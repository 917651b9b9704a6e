-- ===== src/Strings.antt =====
-- What the program calls of Go's `strconv`, `strings` and `net` to take texts apart. A text is a
-- list of code points.
mod HostPort
mod Decimal
mod Split
unfoldable pub use HostPort.*
unfoldable pub use Decimal.*
unfoldable pub use Split.*
