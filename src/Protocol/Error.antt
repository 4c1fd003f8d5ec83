-- ===== src/Protocol/Error.antt =====
-- shared/protocol/src/lib.rs: `ProtocolError`. An error of JSON is that of a third-party crate, here a text.
use Prim.Native.Nat.{ℕ}
use Prim.Native.String.{String}

pub data ProtocolError : Type 0 where
  malformed : String → ProtocolError
  version : ℕ → ProtocolError
  crypto : String → ProtocolError
  replay : ProtocolError
  json : String → ProtocolError
