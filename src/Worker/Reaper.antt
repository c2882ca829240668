-- ===== src/Worker/Reaper.antt =====
-- app/worker/reaper.py: the recovery of the entries of workers that are gone, and the renewal of
-- this worker's leases. Tracing and logs are left out.
pub mod Recovers
pub mod Counts
use package.text.Mathlib.Text.{◌==◌ as str_eq}
use ocr_orchestrator.Common.{
  ℕ, suc, ◌+◌, Bool, true, false, Option, none, some, List, [], ◌∷◌, String, ◌==◌, if◌then◌else◌,
  length,
}
use ocr_orchestrator.Queue.State.{PageState, is_terminal}
use ocr_orchestrator.Queue.Tasks.{Value, number, text, PageTask}
use ocr_orchestrator.Queue.Broker.{Broker}
use ocr_orchestrator.Queue.Streams.{Queue, ack, requeue}
use ocr_orchestrator.Queue.Streams as Streams
use ocr_orchestrator.Queue.Consumer.{claim_orphans, renew_leases}
use ocr_orchestrator.Worker.Limits.{Settings, exhausted}
use ocr_orchestrator.Worker.Pipeline.{Env, World, get_page, release_claim, force_terminal}

pub record ReaperStats : Type 0 where
  pub scans : ℕ
  pub claimed : ℕ
  pub requeued : ℕ
  pub forced_terminal : ℕ
  pub already_terminal : ℕ
  pub expired : ℕ
  pub leases_renewed : ℕ

-- The store of one job, the queue and the counters.
pub record Ward (L : Type 0) : Type 0 where
  pub world : World
  pub queue : Queue L
  pub stats : ReaperStats

module _ {L : Type 0} (b : Broker L) (c : Settings) (now : ℕ) (t : PageTask) (v : Env) where
  abbrev pub page_env : Env
  page_env = record v { index = t.page_index }

  abbrev pub settle_entry : World → (ReaperStats → ReaperStats) → Ward L → Ward L
  settle_entry w count x = record {
    world = w;
    queue = ack b t.stream t.entry_id x.queue;
    stats = count x.stats;
  }

  abbrev pub count_expired : ReaperStats → ReaperStats
  count_expired n = record n { expired = suc n.expired }

  abbrev pub count_terminal : ReaperStats → ReaperStats
  count_terminal n = record n { already_terminal = suc n.already_terminal }

  abbrev pub count_forced : ReaperStats → ReaperStats
  count_forced n = record n { forced_terminal = suc n.forced_terminal }

  -- The claim is released first, then the task is put back.
  abbrev pub give_back : World → Ward L → Ward L
  give_back w x = record {
    world = release_claim page_env w;
    queue = requeue b true now t x.queue;
    stats = record x.stats { requeued = suc x.stats.requeued };
  }

  abbrev pub recover_live : String → World → Ward L → Ward L
  recover_live reason w x =
      if exhausted c now t
      then settle_entry (force_terminal page_env reason w).1 count_forced x
      else give_back w x

  abbrev pub recover_page : String → Option PageState → World → Ward L → Ward L
  recover_page reason none w x = settle_entry w count_expired x
  recover_page reason (some s) w x =
      if is_terminal s then settle_entry w count_terminal x else recover_live reason w x

  -- `_recover`
  unfoldable pub recover : String → Ward L → Ward L
  recover reason x = let g = get_page page_env x.world in recover_page reason g.0 g.1 x

-- All jobs: the store of each.
abbrev pub Worlds : Type 0
Worlds = Value → World

abbrev value_eq : Value → Value → Bool
value_eq (number m) (number n) = m == n
value_eq (text s) (text t) = str_eq s t
value_eq _ _ = false

abbrev pub put : Value → World → Worlds → Worlds
put job w ws k = if value_eq k job then w else ws k

pub record Wards (L : Type 0) : Type 0 where
  pub worlds : Worlds
  pub queue : Queue L
  pub stats : ReaperStats

module _ {L : Type 0} (b : Broker L) (c : Settings) (now : ℕ) (v : Value → Env) where
  abbrev pub into : PageTask → Wards L → Ward L
  into t x = record { world = x.worlds t.job_id; queue = x.queue; stats = x.stats }

  abbrev pub out_of : PageTask → Wards L → Ward L → Wards L
  out_of t x y = record { worlds = put t.job_id y.world x.worlds; queue = y.queue; stats = y.stats }

  unfoldable pub recover_all : String → List PageTask → Wards L → Wards L
  recover_all reason [] x = x
  recover_all reason (t ∷ ts) x =
      recover_all reason ts (out_of t x (recover b c now t (v t.job_id) reason (into t x)))

  -- `scan`
  abbrev pub count_scan : ℕ → ReaperStats → ReaperStats
  count_scan n s = record s { scans = suc s.scans; claimed = s.claimed + n }

  unfoldable pub scan : String → Streams.Env L → Wards L → ℕ × Wards L
  unfolding recover_all
  scan reason e x =
      let o = claim_orphans b e c.reaper_min_idle_ms c.reaper_batch x.queue in
      (
        length o.0,
        recover_all reason o.0 (record x { queue = o.1; stats = count_scan (length o.0) x.stats }),
      )

  -- `renew`
  unfoldable pub renew : Streams.Env L → List PageTask → Wards L → ℕ × Wards L
  renew e [] x = (0, x)
  renew e (t ∷ ts) x =
      let r = renew_leases b e (t ∷ ts) x.queue in
      (
        r.0,
        record x {
          queue = r.1;
          stats = record x.stats { leases_renewed = x.stats.leases_renewed + r.0 };
        },
      )
