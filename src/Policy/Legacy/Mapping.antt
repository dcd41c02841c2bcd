-- ===== src/Policy/Legacy/Mapping.antt =====
-- What the mapping promises of a run.
use codex_cursor_devstack.Base.{◌≡◌, Bool, ok, ◌>>=◌, arith}
use codex_cursor_devstack.Base.Value.{Value}
use codex_cursor_devstack.Policy.Legacy.{RunProfileMapping, resolve_run_profile_request}

-- A flag that was given is kept, or the request is refused.
pub resolve_run_keeps_flags :
    (profile : Value) (readonly outer_only : Bool) (m : RunProfileMapping)
    → resolve_run_profile_request profile (Value.boolean readonly) (Value.boolean outer_only) ≡ ok m
    → (m.readonly ≡ readonly) × (m.outer_only ≡ outer_only)
unfolding resolve_run_profile_request ◌>>=◌
resolve_run_keeps_flags Value.null readonly outer_only m h = ground arith
resolve_run_keeps_flags (Value.text s) readonly outer_only m h = ground arith
resolve_run_keeps_flags _ readonly outer_only m h = cc
