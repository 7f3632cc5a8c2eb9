-- ===== src/Tests/Faults.antt =====
-- The classification of faults at faults that show it.
use polyform_polyguard.Agreement.Faults.{code, code-classified, code-not_success}
use polyform_polyguard.Agreement.{busy, upstream_timeout}
use polyform_polyguard.Base.{true, false, ◌≡◌, refl, equal, ok, is_ok}
use polyform_polyguard.Telemetry.{classification}
use polyform_polyguard.Types.{timeout, TelemetryOutcome}

code-classified_example : is_ok (classification (code busy) false) ≡ false
code-classified_example = code-classified busy

abbrev timed_out : TelemetryOutcome
timed_out = record { category = timeout; success = false }

timeout_run : classification (code upstream_timeout) true ≡ ok timed_out
unfolding classification code equal
timeout_run = refl

code-not_success_example : timed_out.success ≡ false
code-not_success_example = code-not_success upstream_timeout true timeout_run
