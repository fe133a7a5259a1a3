-- ===== src/Operation/Pruning/Oldest.antt =====
-- Pruning removes the oldest terminal records: src/operation/store.rs.
use enclave.Common.{◌≡◌, false, Option, none, some, Text, get_or}
use enclave.Operation.{OperationRecord, is_open, Files}

-- What stands in the file of a terminal record.
Terminal : Files → Text × Text → Type 0
Terminal files e =
    (r : OperationRecord) × (get_or none files e.1 ≡ some r)
    × (is_open r.status ≡ false)
    × (e.0 ≡ r.updated_at)
