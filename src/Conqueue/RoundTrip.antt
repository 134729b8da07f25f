-- ===== src/Conqueue/RoundTrip.antt =====
-- What the iterators of evenk/conqueue.h write to a queue and read from it, for any queue that keeps
-- the laws of the interface.
use evenk.Prelude.{true}
use evenk.Status.{Status}
use evenk.Conqueue.Iterators.{OutputIterator}

abbrev pub attached : OutputIterator
attached = record { attached = true }
