-- ===== src/Extractor/Blocked/Guarded.antt =====
-- The ring under every operation of the extractor.
use packet_inspector.Base.{ℕ, Option, Bytes}
use packet_inspector.Packet.{Verdict}
use packet_inspector.Extractor.Table.{find}
use packet_inspector.Extractor.Ring.{park, evict_oldest_blocked}
use packet_inspector.Extractor.Callbacks.{defer_close, settle, resolve_conn}
use packet_inspector.Extractor.Conserve.Tables.{find-update_self}
use packet_inspector.Extractor.Stable.{
  IsStable, IsGuarded, AnyBytes, AnyPacket, everything, All-AnyKey,
}
use packet_inspector.Extractor.Blocked.{IsRemembered, write-IsRemembered}
use packet_inspector.Extractor.Blocked.Evict.{
  insert-IsRemembered, erase-IsRemembered, park_all-IsRemembered, defer_close-IsRemembered,
  settle-IsRemembered, evict-IsRemembered,
}
use packet_inspector.Extractor.Feed.{expired}

-- The ring remembers the blocked flows in every step of the extractor.
pub IsRemembered-IsStable {ℓ} :
    {R : Type ℓ} (size : ℕ) (policy : Option Bytes → Verdict)
    → IsStable R policy AnyBytes AnyPacket everything (IsRemembered size)
unfolding evict_oldest_blocked resolve_conn park find
IsRemembered-IsStable size policy = record {
  aware = λ s p feeding. tt;
  aged = λ now s due t p. All-AnyKey (expired now s.conns);
  write = λ key c w e may t there grows p.
      write-IsRemembered size key c w e there grows.same_state
        (find-update_self key w e.conns there) p;
  add = λ key e may new p. insert-IsRemembered size key e p;
  forget = λ key c e t there is p. erase-IsRemembered size key e t p;
  let_go = λ pkt e p. record {
    same_max = p.same_max;
    ring_length = p.ring_length;
    next_inside = p.next_inside;
    in_ring = p.in_ring;
  };
  drop_packet = λ pkt key c e there is sent p. record {
    same_max = p.same_max;
    ring_length = p.ring_length;
    next_inside = p.next_inside;
    in_ring = p.in_ring;
  };
  settle_flow = λ key hostname c e may t there is known p.
      rw (is, resolve_conn)
        (park_all-IsRemembered size c.held (policy hostname)
          (defer_close c (settle (policy hostname) key c e))
          (defer_close-IsRemembered size c (settle (policy hostname) key c e)
            (settle-IsRemembered size (policy hostname) key c e t p)));
  make_space = λ e t p. evict-IsRemembered size e.max_blocked e t p;
  clear = λ e ends p. record {
    same_max = p.same_max;
    ring_length = p.ring_length;
    next_inside = p.next_inside;
    in_ring = λ k c h is nz. cc;
  };
}

pub IsRemembered-IsGuarded {ℓ} :
    {R : Type ℓ} (size : ℕ) (policy : Option Bytes → Verdict)
    → IsGuarded R policy AnyBytes AnyPacket everything (λ mode. IsRemembered size)
IsRemembered-IsGuarded size policy = record {
  stable = λ mode. IsRemembered-IsStable size policy;
  enter = λ key e may p. record {
    same_max = p.same_max;
    ring_length = p.ring_length;
    next_inside = p.next_inside;
    in_ring = p.in_ring;
  };
  leave = λ key e p. record {
    same_max = p.same_max;
    ring_length = p.ring_length;
    next_inside = p.next_inside;
    in_ring = p.in_ring;
  };
  deaf = λ s bytes p feeding. tt;
  tuned = λ key s bytes p heard. tt;
}
