-- ===== src/Effect/Reasons.antt =====
-- internal/effect/errors.go: the failure reason that an error of the applier carries.
use semmachina.Prelude.{String, Option, none, some, List, []}
use semmachina.Vocabulary.FailureReason.{FailureReason, effect_invalid, effect_commit_incomplete}
use semmachina.Effect.Views.{code}
use semmachina.Effect.Applier.{ApplyError, batch_invalid, rejected, commit_incomplete}

-- `FailureReasonFor`; an error that is not coded is no outcome of a turn.
unfoldable pub failure_reason_for : ApplyError → Option FailureReason
unfolding code
failure_reason_for (batch_invalid e) = some effect_invalid
failure_reason_for (rejected r) = some (code r.violation)
failure_reason_for (commit_incomplete id written c) = some effect_commit_incomplete
failure_reason_for e = none

-- The target that an error names, and the targets that it says were written.
unfoldable pub target_of_error : ApplyError → String
target_of_error (rejected r) = r.target
target_of_error (commit_incomplete id written c) = id
target_of_error e = ""

unfoldable pub committed_of_error : ApplyError → List String
committed_of_error (commit_incomplete id written c) = written
committed_of_error e = []
