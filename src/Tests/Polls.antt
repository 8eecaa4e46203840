-- ===== src/Tests/Polls.antt =====
-- A socket that is broken, and one whose `recv` overran.
use packet_inspector.Base.{◌≡◌, refl, true, false}
use packet_inspector.Poll.{ready, recv_failed, Health, nobody, run_once, failed, enobufs}
use packet_inspector.Poll.Failed.{is_error, failed-run_once}

abbrev healthy : Health
healthy = record { err_what = nobody; err_errno = 0 }

healthy-failed : failed healthy ≡ false
unfolding failed
healthy-failed = refl

failed-run_once_example :
    failed
      (run_once true
        (ready (record { readable = true; broken = false }) false)
        (recv_failed enobufs)
        healthy).1
    ≡ is_error
        (run_once true
          (ready (record { readable = true; broken = false }) false)
          (recv_failed enobufs)
          healthy).0
failed-run_once_example =
    failed-run_once true (ready (record { readable = true; broken = false }) false)
      (recv_failed enobufs) healthy healthy-failed
