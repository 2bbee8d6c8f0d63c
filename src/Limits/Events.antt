-- ===== src/Limits/Events.antt =====
-- The events of limits.c as event.c receives them: `kfsw_event_emit` on what `release` hands it.
use kfsw_services.Common.{arith, ℕ, ◌+◌, ◌≡◌, sym, ◌∙◌, ap, inl, inr, none, some, Bool}
use kfsw_services.Common.Words.{u32}
use kfsw_services.Common.Codes.{Result-cases}
use kfsw_services.Event
use kfsw_services.Event.Counting.{emit_declared_source_refused}
use kfsw_services.Limits.{Floats, Rule, Status, Surroundings, crosses, evaluate, judge, release}
use kfsw_services.Limits.Firing.{evaluate-err, evaluate-ok}

judge-source :
    (env : Surroundings) (st : Status) (rule : Rule) (crossing : Bool) (e : Event.Emission)
    → (judge env st rule crossing).event ≡ some e
    → e.source ≡ Event.source_limits
unfolding judge release
judge-source env st rule crossing e h = ground arith

evaluate-source :
    (floats : Floats) (env : Surroundings) (st : Status) (rule : Rule) (e : Event.Emission)
    → (evaluate floats env st rule).event ≡ some e
    → e.source ≡ Event.source_limits
evaluate-source floats env st rule e h = elim (Result-cases env.param_get) [
  | inl (code, p) ↦
      let same = ap (λ r. r.event) (evaluate-err floats env st rule p).0 in
      let impossible : none ≡ some e = sym same ∙ h in ground (arith, impossible)
  | inr (scalar, p) ↦
      let same = ap (λ r. r.event) (evaluate-ok floats env st rule p).0 in
      judge-source env st rule (crosses floats rule scalar) e (sym same ∙ h)
]

-- No release of a rule reaches the event service's ring: whatever event an evaluation of a rule
-- emits, `kfsw_event_emit` counts it as rejected and stores nothing.
pub release_event_lost :
    (floats : Floats) (env : Surroundings) (st : Status) (rule : Rule) (e : Event.Emission)
    → (evaluate floats env st rule).event ≡ some e
    → (s : Event.State) (now : ℕ)
    → Event.emit s e now ≡ (record s { rejected_count = u32 (s.rejected_count + 1) }, none)
release_event_lost floats env st rule e h s now =
    let source = evaluate-source floats env st rule e h in
    emit_declared_source_refused s e now (omega (arith, source)) (omega (arith, source))
