-- ===== src/Admission/Samples.antt =====
-- Admission at a concrete run: thread 1 enters, thread 2 waits, thread 1 leaves and thread 2 enters.
use vault_bridge.Base.{false, arith}
use vault_bridge.Admission.{
  Admission, History, new_admission, open_admission, begin_shutdown, begin_operation, look,
  end_operation, opened, begun, beginning, followed,
}
use vault_bridge.Admission.Waiters.{IsCounted, History-IsCounted}

abbrev ready : Admission
ready = (open_admission new_admission).0

abbrev first_in : Admission
first_in = (begin_operation false 1 ready).0

abbrev second_waits : Admission
second_waits = (begin_operation false 2 first_in).0

abbrev first_out : Admission
first_out = (end_operation false false 1 second_waits).0

abbrev second_in : Admission
second_in = (look false 2 first_out).0

abbrev stopping : Admission
stopping = begin_shutdown first_in

waiting_run : History new_admission second_waits
unfolding open_admission begin_operation
waiting_run =
    followed (followed (followed beginning opened) (begun false 1 (ground arith)))
      (begun false 2 (ground arith))

History-IsCounted_example : IsCounted second_waits
History-IsCounted_example = History-IsCounted waiting_run
