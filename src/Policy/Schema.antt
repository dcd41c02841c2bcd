-- ===== src/Policy/Schema.antt =====
-- policy/schema.py: the policy records, `from_dict` and `as_dict`, what a valid policy is, and the
-- round trip.
mod Records
mod Decode
mod Encode
mod Valid
mod Accepts
mod RoundTrip
unfoldable pub use Records.*
unfoldable pub use Decode.*
unfoldable pub use Encode.*
pub use Valid.*
pub use Accepts.*
pub use RoundTrip.*
