-- ===== src/Queue/State/Table.antt =====
-- What the transition table of app/queue/state.py guarantees.
use ocr_orchestrator.Common.{◌≡◌, refl, ◌↔◌, true, arith}
use ocr_orchestrator.Queue.State.{
  PageState, state_eq, contains, is_terminal, predecessors, can_transition,
}

pub state_eq_iff : (a b : PageState) → (state_eq a b ≡ true) ↔ (a ≡ b)
state_eq_iff a b = ground arith

-- A state is listed among the predecessors of a target exactly when the table allows that step.
pub predecessors_iff :
    (src dst : PageState) → contains (predecessors dst) src ≡ can_transition src dst
unfolding predecessors
predecessors_iff src dst = ground arith

-- Steps between states, and what can be reached by them.
pub data Steps (s : PageState) : PageState → Type 0 where
  here : Steps s s
  next : {t u : PageState} → Steps s t → can_transition t u ≡ true → Steps s u

-- No step leaves a terminal state, so a page that is terminal stays in that state.
pub terminal_final : {s t : PageState} → Steps s t → is_terminal s ≡ true → t ≡ s
terminal_final here h = refl
terminal_final (next {t} {u} r e) h = ground (arith, terminal_final r h)

pub Steps-trans : {s t u : PageState} → Steps s t → Steps t u → Steps s u
Steps-trans r here = r
Steps-trans r (next q e) = next (Steps-trans r q) e
