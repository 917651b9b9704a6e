-- ===== src/Fmt.antt =====
-- What the program uses of Go's `fmt`: the verbs `%02x` and `%08x` of `Sprintf`, and `Sscanf`
-- with `%02x`. A text is a list of code points.
mod Hex
mod Scan
mod RoundTrip
mod Words
mod Characters
unfoldable pub use Hex.*
unfoldable pub use Scan.*
pub use RoundTrip.*
pub use Words.*
pub use Characters.*
