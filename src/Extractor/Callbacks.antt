-- ===== src/Extractor/Callbacks.antt =====
-- `resolve` of src/hostname_extractor.cpp, and the callbacks that the reassembler makes.
use packet_inspector.Base.{
  ℕ, true, not, ◌&&◌, ◌||◌, Option, none, some, List, [], ◌∷◌, ◌++◌, ltb, ◌==◌, if◌then◌else◌,
  Bytes, length, take, u32,
}
use packet_inspector.Memory.{ok}
use packet_inspector.Tls.Records.{HostnameResult, found, not_found, need_more}
use packet_inspector.Tls.{extract_hostname}
use packet_inspector.Packet.{Verdict, allow, block}
use packet_inspector.Extractor.Table.{find, erase, update}
use packet_inspector.Extractor.State.{
  waiting, blocking, Conn, Event, connection_start, message_ready, connection_end, Extractor,
  max_stream_bytes, block_conn,
}
use packet_inspector.Extractor.Ring.{park_all, remember_blocked}

-- The `switch` on `extractHostname`, on the bytes that its 32-bit length covers. (A fault would be
-- read as NeedMore.)
unfoldable pub hostname_in : Bytes → HostnameResult
hostname_in stream = elim (extract_hostname (take (u32 (length stream)) stream)) [
  | ok r ↦ r
  | _ ↦ need_more
]

module _ {ℓ} {R : Type ℓ} where
  -- The deferred close, unless there is nothing to close.
  unfoldable pub defer_close : Conn → Extractor R → Extractor R
  defer_close c e =
      if not (c.pcpp_key == 0) && not c.pcpp_closed
      then record e { to_close = e.to_close ++ c.pcpp_key ∷ [] }
      else e

  -- What `resolve` does with the flow's entry.
  unfoldable pub settle : Verdict → ℕ → Conn → Extractor R → Extractor R
  settle block key c e =
      remember_blocked key (record e { conns = update key (block_conn c) e.conns })
  settle allow key c e = record e { conns = erase key e.conns }

module _ {ℓ} {R : Type ℓ} (policy : Option Bytes → Verdict) where
  unfoldable pub resolve_conn : ℕ → Option Bytes → Conn → Extractor R → Extractor R
  resolve_conn key hostname c e = elim c.state [
    | blocking ↦ e
    | waiting ↦ let v = policy hostname in park_all c.held v (defer_close c (settle v key c e))
  ]

  unfoldable pub resolve : ℕ → Option Bytes → Extractor R → Extractor R
  resolve key hostname e = elim (find key e.conns) [
    | none ↦ e
    | some c ↦ resolve_conn key hostname c e
  ]

  unfoldable pub on_connection_start : ℕ → Extractor R → Extractor R
  on_connection_start flow_key e = if not e.feeding then e else elim (find e.current_key e.conns) [
    | none ↦ e
    | some c ↦ record e { conns = update e.current_key (record c { pcpp_key = flow_key }) e.conns }
  ]

  -- The `switch` of `onMessageReady`.
  unfoldable pub act_on : HostnameResult → ℕ → Bytes → Extractor R → Extractor R
  act_on (found host) key stream e = resolve key (some host) e
  act_on not_found key stream e = resolve key none e
  act_on need_more key stream e =
      if ltb max_stream_bytes (length stream) then resolve key none e else e

  unfoldable pub on_client_data : ℕ → Bytes → Conn → Extractor R → Extractor R
  on_client_data flow_key bytes c e = elim c.state [
    | blocking ↦ e
    | waiting ↦
        let stream = c.stream ++ bytes in
        act_on (hostname_in stream) e.current_key stream (record e {
          conns = update e.current_key (record c { pcpp_key = flow_key; stream = stream }) e.conns;
        })
  ]

  unfoldable pub on_message_ready : ℕ → ℕ → Bytes → Extractor R → Extractor R
  on_message_ready side flow_key bytes e =
      if not e.feeding || not (side == 0) then e else elim (find e.current_key e.conns) [
        | none ↦ e
        | some c ↦ on_client_data flow_key bytes c e
      ]

  unfoldable pub on_connection_end : Extractor R → Extractor R
  on_connection_end e = if not e.feeding then e else elim (find e.current_key e.conns) [
    | none ↦ e
    | some c ↦
        resolve e.current_key none
          (record e { conns = update e.current_key (record c { pcpp_closed = true }) e.conns })
  ]

  -- The callbacks that one call of the reassembler makes, in order.
  unfoldable pub dispatch : Event → Extractor R → Extractor R
  dispatch (connection_start flow_key) e = on_connection_start flow_key e
  dispatch (message_ready side flow_key bytes) e = on_message_ready side flow_key bytes e
  dispatch connection_end e = on_connection_end e

  unfoldable pub dispatch_all : List Event → Extractor R → Extractor R
  dispatch_all [] e = e
  dispatch_all (x ∷ xs) e = dispatch_all xs (dispatch x e)
