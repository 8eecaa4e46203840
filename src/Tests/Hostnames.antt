-- ===== src/Tests/Hostnames.antt =====
-- The TLS parser at a ClientHello in two records.
use packet_inspector.Base.{◌≡◌, ◌⊎◌, refl, [], ◌∷◌, ◌++◌, arith, take, drop}
use packet_inspector.Memory.{Outcome, ok, Returns}
use packet_inspector.Tls.{extract_hostname}
use packet_inspector.Tls.Records.{HostnameResult, found, not_found, need_more}
use packet_inspector.Tls.Hello.{parse_client_hello}
use packet_inspector.Tls.Hello.Correct.{parse_client_hello-hello_message}
use packet_inspector.Tls.Wire.{IsHello, hello_message}
use packet_inspector.Tls.Correct.{
  extract_hostname-Returns, extract_hostname-append, extract_hostname-record_layer,
  extract_hostname_prefix,
}
use packet_inspector.Tests.{host, sample_hello, two_records, sample_stream}

pub sample_hello-IsHello : IsHello sample_hello
sample_hello-IsHello = record {
  version_length = refl;
  random_length = refl;
  session_id_length = omega arith;
  cipher_suites_length = omega arith;
  compression_methods_length = omega arith;
  extensions_length = omega arith;
  extensions_fit = (
    (omega arith, omega arith, omega arith),
    ((((omega arith, omega arith), tt), omega arith), tt),
  );
  body_length = omega arith;
}

extract_hostname-record_layer_example : extract_hostname (sample_stream ++ 9 ∷ []) ≡ ok (found host)
extract_hostname-record_layer_example =
    extract_hostname-record_layer sample_hello two_records [] (9 ∷ []) sample_hello-IsHello
      ((omega arith, omega arith), ((omega arith, omega arith), tt)) refl (omega arith)

extract_hostname_prefix_example :
    (extract_hostname (take 30 sample_stream) ≡ ok need_more)
    ⊎ (extract_hostname (take 30 sample_stream) ≡ ok (found host))
extract_hostname_prefix_example =
    extract_hostname_prefix sample_hello two_records [] [] (take 30 sample_stream)
      (drop 30 sample_stream) sample_hello-IsHello
      ((omega arith, omega arith), ((omega arith, omega arith), tt)) refl (omega arith) refl

extract_hostname-Returns_example :
    Returns (extract_hostname (take 30 sample_stream)) (λ _. Unit {0})
extract_hostname-Returns_example = extract_hostname-Returns (take 30 sample_stream) (omega arith)

runs_to_a_name : extract_hostname sample_stream ≡ ok (found host)
unfolding packet_inspector.Memory.read packet_inspector.Memory.span packet_inspector.Memory.rd16
    packet_inspector.Tls.after_collect packet_inspector.Tls.extract_hostname
    packet_inspector.Tls.Records.rd24 packet_inspector.Tls.Records.is_other_record
    packet_inspector.Tls.Records.learn_length packet_inspector.Tls.Records.join_step
    packet_inspector.Tls.Records.join_records packet_inspector.Tls.Records.join_all
    packet_inspector.Tls.Records.fast_path packet_inspector.Tls.Records.has_other_major
    packet_inspector.Tls.Records.collect_payload packet_inspector.Tls.Records.check_major
    packet_inspector.Tls.Records.collect_handshake packet_inspector.Tls.Hello.walk
    packet_inspector.Tls.Hello.name_step packet_inspector.Tls.Hello.walk_names
    packet_inspector.Tls.Hello.server_name packet_inspector.Tls.Hello.extension_step
    packet_inspector.Tls.Hello.walk_extensions packet_inspector.Tls.Hello.parse_extensions
    packet_inspector.Tls.Hello.parse_compression packet_inspector.Tls.Hello.parse_cipher_suites
    packet_inspector.Tls.Hello.parse_body packet_inspector.Tls.Hello.parse_client_hello
runs_to_a_name = refl

waits_in_the_middle : extract_hostname (take 30 sample_stream) ≡ ok need_more
unfolding packet_inspector.Memory.read packet_inspector.Memory.span packet_inspector.Memory.rd16
    packet_inspector.Tls.after_collect packet_inspector.Tls.extract_hostname
    packet_inspector.Tls.Records.rd24 packet_inspector.Tls.Records.is_other_record
    packet_inspector.Tls.Records.learn_length packet_inspector.Tls.Records.join_step
    packet_inspector.Tls.Records.join_records packet_inspector.Tls.Records.join_all
    packet_inspector.Tls.Records.fast_path packet_inspector.Tls.Records.has_other_major
    packet_inspector.Tls.Records.collect_payload packet_inspector.Tls.Records.check_major
    packet_inspector.Tls.Records.collect_handshake packet_inspector.Tls.Hello.walk
    packet_inspector.Tls.Hello.name_step packet_inspector.Tls.Hello.walk_names
    packet_inspector.Tls.Hello.server_name packet_inspector.Tls.Hello.extension_step
    packet_inspector.Tls.Hello.walk_extensions packet_inspector.Tls.Hello.parse_extensions
    packet_inspector.Tls.Hello.parse_compression packet_inspector.Tls.Hello.parse_cipher_suites
    packet_inspector.Tls.Hello.parse_body packet_inspector.Tls.Hello.parse_client_hello
waits_in_the_middle = refl

extract_hostname-append_example : extract_hostname (sample_stream ++ 22 ∷ 3 ∷ []) ≡ ok (found host)
extract_hostname-append_example =
    extract_hostname-append sample_stream (22 ∷ 3 ∷ []) (omega arith) runs_to_a_name (λ x. cc)

parse_client_hello-hello_message_example :
    parse_client_hello (hello_message sample_hello) ≡ ok (found host)
parse_client_hello-hello_message_example =
    parse_client_hello-hello_message sample_hello sample_hello-IsHello
