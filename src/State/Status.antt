-- ===== src/State/Status.antt =====
-- The values of StepStatus, RunStatus and ApprovalStatus that pkg/types/run.go names.
use ktsu.Prelude.{String}

abbrev pub pending : String
pending = "pending"

abbrev pub running : String
running = "running"

abbrev pub complete : String
complete = "complete"

abbrev pub failed : String
failed = "failed"

abbrev pub skipped : String
skipped = "skipped"

abbrev pub pending_approval : String
pending_approval = "pending_approval"

abbrev pub approved : String
approved = "approved"

abbrev pub rejected : String
rejected = "rejected"

abbrev pub timeout : String
timeout = "timeout"
