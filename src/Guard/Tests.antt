-- ===== src/Guard/Tests.antt =====
-- A call of a tool that a person approves.
use mcp_authz.Base.{Bool, true, String, ◌≡◌, refl, ◌↔◌, [], ◌∷◌, none, some, err, In}
use mcp_authz.Policy.Tests.{ann}
use mcp_authz.Ladder.{tool}
use mcp_authz.Ladder.Gate.{allow}
use mcp_authz.Guard.{AuditEvent, ran, Guards, Call, answered, attempt, guarded, outcome_of}
use mcp_authz.Guard.Ran.{MayRun, guarded-ran_iff}
use mcp_authz.Guard.Told.{written, IsOfCall, Tells, guarded-Tells}

abbrev sink : AuditEvent → Bool
sink e = true

abbrev guards : Guards
guards = record {
  on_audit = some sink;
  on_audit_error = true;
  emitter = some "edge";
  approval_timeout_ms = 45000;
}

abbrev call : Call String
call = record {
  call_id = "1";
  resource = some "case 7";
  asking = true;
  answer = answered (record { approved = true; by = some "bea"; reason = none });
  handler = err "disk full";
  begun = "2026-07-28T00:00:00Z";
  ended = "2026-07-28T00:00:09Z";
  took = 9000;
}

guarded-ran_iff_example :
    (In ran (guarded tool "wipe" "delete" ann guards call).acts
      ↔ MayRun tool "wipe" "delete" ann guards call)
    × (In ran (guarded tool "wipe" "delete" ann guards call).acts
        → (guarded tool "wipe" "delete" ann guards call).result
          ≡ outcome_of tool "wipe" "delete" ann guards call (err "disk full"))
guarded-ran_iff_example = guarded-ran_iff tool "wipe" "delete" ann guards call

guarded-Tells_example :
    (first last : AuditEvent) × (written (guarded tool "wipe" "delete" ann guards call).acts
      ≡ first ∷ last ∷ [])
    × IsOfCall tool "wipe" "delete" ann call first
    × (first.phase ≡ attempt)
    × (first.decision ≡ allow)
    × IsOfCall tool "wipe" "delete" ann call last
    × Tells last (guarded tool "wipe" "delete" ann guards call).result
guarded-Tells_example = guarded-Tells tool "wipe" "delete" ann guards call sink refl (λ e. refl)
