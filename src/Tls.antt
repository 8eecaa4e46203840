-- ===== src/Tls.antt =====
-- The ClientHello parser of src/hostname_extractor.cpp: `collectHandshake` strips the record layer,
-- `parseClientHello` walks the message. A (pointer, length) pair is a span of bytes (module Memory),
-- so `hs, hs_len` and `host, host_len` are the bytes that `found` carries.
pub mod Wire
pub mod Records
pub mod Hello
pub mod Correct
use packet_inspector.Base.{Bytes}
use packet_inspector.Memory.{Outcome, ok, ◌>>=◌}
use Records.{HostnameResult, found, not_found, need_more, collect_handshake}
use Hello.{parse_client_hello}

-- The second half of `extractHostname`: an early result is returned as it is.
unfoldable pub after_collect : HostnameResult → Outcome HostnameResult
after_collect (found message) = parse_client_hello message
after_collect not_found = ok not_found
after_collect need_more = ok need_more

-- `extractHostname`
unfoldable pub extract_hostname : Bytes → Outcome HostnameResult
extract_hostname p = do r ← collect_handshake p; after_collect r
