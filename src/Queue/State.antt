-- ===== src/Queue/State.antt =====
-- app/queue/state.py, the part in Python: the states, the transition table and what is derived from
-- it. A frozenset of states is a list in the order of the enum, read only through `contains`.
pub mod Table
use ocr_orchestrator.Common.{
  ℕ, ◌≡◌, refl, ◌↔◌, ◌⊎◌, inl, inr, Bool, true, false, ◌||◌, Option, none, some, List, [], ◌∷◌,
  arith, if◌then◌else◌,
}

pub data PageState : Type 0 where
  pending layout_running layout_done vlm_running done fallback_done failed : PageState

pub data JobState : Type 0 where
  ingesting running complete failed : JobState

-- The enum, in its order: what `for target in PageState` runs over.
abbrev pub all_states : List PageState
all_states =
    pending ∷ layout_running ∷ layout_done ∷ vlm_running ∷ done ∷ fallback_done ∷ failed ∷ []

-- Equality of the enum's string values.
abbrev pub state_eq : PageState → PageState → Bool
state_eq pending pending = true
state_eq layout_running layout_running = true
state_eq layout_done layout_done = true
state_eq vlm_running vlm_running = true
state_eq done done = true
state_eq fallback_done fallback_done = true
state_eq PageState.failed PageState.failed = true
state_eq _ _ = false

abbrev pub contains : List PageState → PageState → Bool
contains [] s = false
contains (x ∷ xs) s = state_eq x s || contains xs s

-- `TRANSITIONS`
abbrev pub transitions : PageState → List PageState
transitions pending = layout_running ∷ PageState.failed ∷ []
transitions layout_running = layout_done ∷ pending ∷ PageState.failed ∷ []
transitions layout_done = vlm_running ∷ fallback_done ∷ []
transitions vlm_running = done ∷ layout_done ∷ fallback_done ∷ PageState.failed ∷ []
transitions done = []
transitions fallback_done = []
transitions PageState.failed = []

abbrev is_empty : List PageState → Bool
is_empty [] = true
is_empty (x ∷ xs) = false

-- Membership in `TERMINAL_STATES`: no successor in the table.
abbrev pub is_terminal : PageState → Bool
is_terminal s = is_empty (transitions s)

-- Membership in `RUNNING_STATES`.
abbrev pub is_running : PageState → Bool
is_running s = contains (layout_running ∷ vlm_running ∷ []) s

-- `RECLAIM_TARGET`; `none` where the mapping has no key.
abbrev pub reclaim_target : PageState → Option PageState
reclaim_target layout_running = some pending
reclaim_target vlm_running = some layout_done
reclaim_target _ = none

sources_of : PageState → List PageState → List PageState
sources_of target [] = []
sources_of target (src ∷ rest) =
    let others = sources_of target rest in
    if contains (transitions src) target then src ∷ others else others

-- `PREDECESSORS`, computed from the table as the source computes it.
unfoldable pub predecessors : PageState → List PageState
unfolding sources_of
predecessors target = sources_of target all_states

abbrev pub can_transition : PageState → PageState → Bool
can_transition src dst = contains (transitions src) dst
