-- ===== src/Tls/Wire.antt =====
-- TLS as RFC 8446 lays it out, written independently of the parser: records that carry fragments, a
-- ClientHello message and its extensions, and the host name that the message asks for.
use packet_inspector.Base.{
  ℕ, ◌/◌, ◌%◌, ◌≤◌, ◌<◌, ◌≡◌, List, [], ◌∷◌, ◌++◌, ◌==◌, if◌then◌else◌, Option, none, some, Bytes,
  length, All,
}

abbrev pub be16 : ℕ → Bytes
be16 n = (n / 256) ∷ (n % 256) ∷ []

abbrev pub be24 : ℕ → Bytes
be24 n = (n / 65536) ∷ (n / 256 % 256) ∷ (n % 256) ∷ []

-- A handshake record: content type 22, major version 3, any minor version, and a fragment.
pub record Fragment : Type 0 where
  pub minor : ℕ
  pub payload : Bytes

abbrev pub record_bytes : Fragment → Bytes
record_bytes f = 0x16 ∷ 0x03 ∷ f.minor ∷ (be16 (length f.payload) ++ f.payload)

abbrev pub IsFragment : Fragment → Type 0
IsFragment f = (0 < length f.payload) × (length f.payload ≤ 16384)

abbrev pub record_layer : List Fragment → Bytes
record_layer [] = []
record_layer (f ∷ fs) = record_bytes f ++ record_layer fs

-- What the fragments carry, joined.
abbrev pub payloads : List Fragment → Bytes
payloads [] = []
payloads (f ∷ fs) = f.payload ++ payloads fs

-- One entry of a ServerNameList; type 0 is host_name.
pub record ServerName : Type 0 where
  pub name_type : ℕ
  pub name : Bytes

pub data Extension : Type 0 where
  server_names : List ServerName → Extension
  other : ℕ → Bytes → Extension

abbrev pub name_bytes : List ServerName → Bytes
name_bytes [] = []
name_bytes (n ∷ ns) = n.name_type ∷ (be16 (length n.name) ++ (n.name ++ name_bytes ns))

abbrev pub extension_data : Extension → Bytes
extension_data (server_names ns) = be16 (length (name_bytes ns)) ++ name_bytes ns
extension_data (other t d) = d

abbrev pub extension_type : Extension → ℕ
extension_type (server_names ns) = 0
extension_type (other t d) = t

abbrev pub extension_bytes : List Extension → Bytes
extension_bytes [] = []
extension_bytes (e ∷ es) =
    be16 (extension_type e)
    ++ (be16 (length (extension_data e)) ++ (extension_data e ++ extension_bytes es))

pub record ClientHello : Type 0 where
  pub version : Bytes
  pub random : Bytes
  pub session_id : Bytes
  pub cipher_suites : Bytes
  pub compression_methods : Bytes
  pub extensions : List Extension

abbrev pub hello_tail : ClientHello → Bytes
hello_tail h =
    be16 (length h.cipher_suites)
    ++ (h.cipher_suites
        ++ (length h.compression_methods
            ∷ (h.compression_methods
                ++ (be16 (length (extension_bytes h.extensions)) ++ extension_bytes h.extensions))))

abbrev pub hello_body : ClientHello → Bytes
hello_body h = h.version ++ (h.random ++ (length h.session_id ∷ (h.session_id ++ hello_tail h)))

-- msg_type(1) length(3) body
abbrev pub hello_message : ClientHello → Bytes
hello_message h = 0x01 ∷ (be24 (length (hello_body h)) ++ hello_body h)

abbrev pub IsServerName : ServerName → Type 0
IsServerName n = (n.name_type < 256) × (length n.name < 65536)

abbrev pub IsExtension : Extension → Type 0
IsExtension (server_names ns) = All IsServerName ns × (length (name_bytes ns) < 65534)
IsExtension (other t d) = (0 < t) × (t < 65536) × (length d < 65536)

-- The lengths fit their fields, and a message is no longer than the 65535 bytes that are accepted.
pub record IsHello (h : ClientHello) : Type 0 where
  pub version_length : length h.version ≡ 2
  pub random_length : length h.random ≡ 32
  pub session_id_length : length h.session_id < 256
  pub cipher_suites_length : length h.cipher_suites < 65536
  pub compression_methods_length : length h.compression_methods < 256
  pub extensions_length : length (extension_bytes h.extensions) < 65536
  pub extensions_fit : All IsExtension h.extensions
  pub body_length : length (hello_body h) ≤ 65535

-- The first host_name of a list, and of the first server_name extension.
abbrev pub first_host : List ServerName → Option Bytes
first_host [] = none
first_host (n ∷ ns) = if n.name_type == 0 then some n.name else first_host ns

abbrev pub sni_of : List Extension → Option Bytes
sni_of [] = none
sni_of (server_names ns ∷ es) = first_host ns
sni_of (other t d ∷ es) = sni_of es
