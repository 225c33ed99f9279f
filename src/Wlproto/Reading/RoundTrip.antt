-- ===== src/Wlproto/Reading/RoundTrip.antt =====
-- wlproto/src/main.rs: what is read from the document of a protocol.
use Prim.Native.String.{String}
