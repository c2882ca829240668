-- ===== src/Worker/Limits.antt =====
-- app/config.py and app/worker/main.py: how long a page may hold out. Times are in milliseconds.
use native.Mathlib.Decide.{dec_lt}
use ocr_orchestrator.Common.{
  ℕ, ◌+◌, ◌*◌, ◌/◌, ◌≤◌, ◌<◌, ◌≡◌, min, max, Bool, false, ◌||◌, arith, leb, if◌then◌else◌,
}
use ocr_orchestrator.Queue.Tasks.{PageTask, age_ms}

-- The settings that bound a page, and those of the budgets of a worker.
pub record Settings : Type 0 where
  pub degrade_after_ms : ℕ
  pub page_deadline_ms : ℕ
  pub saturation_pause_ms : ℕ
  pub max_requeues : ℕ
  -- Whether `max_requeues` was supplied.
  pub is_explicit : Bool
  pub stage_handoff : Bool
  pub worker_concurrency : ℕ
  pub worker_prefetch : ℕ
  pub worker_lead_reserve : ℕ
  pub worker_block_ms : ℕ
  pub worker_lead_poll_ms : ℕ
  pub reaper_min_idle_ms : ℕ
  pub reaper_batch : ℕ

abbrev pub budget_ms : Settings → ℕ
budget_ms c = min c.degrade_after_ms c.page_deadline_ms

abbrev pub per_requeue_ms : Settings → ℕ
per_requeue_ms c = max c.saturation_pause_ms 50

-- The quotient of the two doubles, cut to an integer, is the quotient of whole milliseconds here.
unfoldable pub effective_max_requeues : Settings → ℕ
effective_max_requeues c =
    if c.is_explicit
    then c.max_requeues
    else max c.max_requeues (budget_ms c / per_requeue_ms c * 2)

-- `final_attempt` of `_handle_page`
abbrev pub final_attempt : Settings → ℕ → PageTask → Bool
final_attempt c now t =
    leb c.degrade_after_ms (age_ms now t)
    || leb c.page_deadline_ms (age_ms now t)
    || leb (effective_max_requeues c) (t.attempt + 1)

-- `exhausted` of the reaper
abbrev pub exhausted : Settings → ℕ → PageTask → Bool
exhausted c now t =
    leb c.page_deadline_ms (age_ms now t) || leb (effective_max_requeues c) (t.attempt + 1)

at_least_one : (n d : ℕ) → 0 < d → d ≤ n → n ≤ n / d * 2 * d
at_least_one n d p h = grind arith

le-max_mul : (m k d x : ℕ) → x ≤ k * d → x ≤ max m k * d
le-max_mul m k d x h = grind arith

short : (m k d x : ℕ) → 1 ≤ m → x < d → x ≤ max m k * d
short m k d x p h = grind arith

lasts : (m n d : ℕ) → 1 ≤ m → 0 < d → n ≤ max m (n / d * 2) * d
lasts m n d p q = elim (dec_lt n d) [
  | yes h ↦ short m (n / d * 2) d n p h
  | no h ↦ le-max_mul m (n / d * 2) d n (at_least_one n d q (omega arith))
]

-- Unless it is configured, the limit on requeues does not bind before the age limits do: that many
-- requeues, each of them no sooner than the pause, take at least as long as the smaller limit.
pub effective_max_requeues_lasts :
    (c : Settings)
    → c.is_explicit ≡ false
    → 1 ≤ c.max_requeues
    → budget_ms c ≤ effective_max_requeues c * per_requeue_ms c
unfolding effective_max_requeues
effective_max_requeues_lasts c derived positive =
    rw derived (lasts c.max_requeues (budget_ms c) (per_requeue_ms c) positive (omega arith))
