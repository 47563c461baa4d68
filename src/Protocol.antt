-- ===== src/Protocol.antt =====
-- crates/woven-protocol: the messages of the wire protocol, their validation and their coding.
mod Numeric
mod Kinds
mod Codes
mod Payloads
mod Model
mod Tables
mod Wire
mod Limits
mod Checked
mod EncodeControl
mod Accessors
mod DecodeTables
mod DecodeControl
mod Scope
mod Contents
mod Semantics
mod Codec
mod Accepted
mod ControlRoundTrip
mod Enums
mod Examples
