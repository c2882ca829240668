-- ===== src/Worker/Reaper/Counts.antt =====
-- Every orphan is counted, once.
use ocr_orchestrator.Common.{
  ℕ, suc, ◌+◌, ◌≡◌, refl, ◌∙◌, Bool, true, false, Option, none, some, List, [], ◌∷◌, String, arith,
  if◌then◌else◌, length,
}
use ocr_orchestrator.Queue.State.{PageState, is_terminal}
use ocr_orchestrator.Queue.Tasks.{Value, PageTask}
use ocr_orchestrator.Queue.Broker.{Broker}
use ocr_orchestrator.Queue.Streams as Streams
use ocr_orchestrator.Queue.Consumer.{claim_orphans}
use ocr_orchestrator.Worker.Limits.{Settings, exhausted}
use ocr_orchestrator.Worker.Pipeline.{Env, World}
use ocr_orchestrator.Worker.Reaper.{
  ReaperStats, Ward, Wards, recover_page, recover, recover_all, into, out_of, scan, count_scan,
}

abbrev pub outcomes : ReaperStats → ℕ
outcomes n = n.requeued + n.forced_terminal + n.already_terminal + n.expired

-- What the counters of a reaper keep.
abbrev pub IsBalanced : ReaperStats → Type 0
IsBalanced n = n.claimed ≡ outcomes n

abbrev Steps : (n : ℕ) → ReaperStats → ReaperStats → Type 0
Steps n s r = (r.claimed ≡ s.claimed) × (r.scans ≡ s.scans) × (outcomes r ≡ outcomes s + n)

if-Steps :
    {L : Type 0} (test : Bool) (n : ℕ) (s : ReaperStats) (x y : Ward L)
    → Steps n s x.stats
    → Steps n s y.stats
    → Steps n s (if test then x else y).stats
if-Steps true n s x y h k = h
if-Steps false n s x y h k = k

module _ {L : Type 0} (b : Broker L) (c : Settings) (now : ℕ) where
  recover_page-Steps :
      (t : PageTask) (v : Env) (reason : String) (s : Option PageState) (w : World) (x : Ward L)
      → Steps 1 x.stats (recover_page b c now t v reason s w x).stats
  recover_page-Steps t v reason none w x = (refl, refl, omega arith)
  recover_page-Steps t v reason (some s) w x =
      if-Steps (is_terminal s) 1 x.stats _ _ (refl, refl, omega arith)
        (if-Steps (exhausted c now t) 1 x.stats _ _ (refl, refl, omega arith)
          (refl, refl, omega arith))

  recover-Steps :
      (t : PageTask) (v : Env) (reason : String) (x : Ward L)
      → Steps 1 x.stats (recover b c now t v reason x).stats
  unfolding recover
  recover-Steps t v reason x = recover_page-Steps t v reason _ _ x

  recover_all-Steps :
      (v : Value → Env) (reason : String) (ts : List PageTask) (x : Wards L)
      → Steps (length ts) x.stats (recover_all b c now v reason ts x).stats
  unfolding recover_all
  recover_all-Steps v reason [] x = (refl, refl, omega arith)
  recover_all-Steps v reason (t ∷ ts) x =
      let y = recover b c now t (v t.job_id) reason (into b c now v t x) in
      let first = recover-Steps t (v t.job_id) reason (into b c now v t x) in
      let rest = recover_all-Steps v reason ts (out_of b c now v t x y) in
      (rest.0 ∙ first.0, rest.1 ∙ first.1, omega (arith, rest.2, first.2))

  -- A scan counts every orphan that it claims as requeued, forced terminal, already terminal or
  -- expired, each under one of them, and returns how many it claimed.
  pub scan-IsBalanced :
      (v : Value → Env) (reason : String) (e : Streams.Env L) (x : Wards L)
      → IsBalanced x.stats
      → let r = scan b c now v reason e x in
        IsBalanced r.1.stats
        × (outcomes r.1.stats ≡ outcomes x.stats + r.0)
        × (r.1.stats.scans ≡ suc x.stats.scans)
  unfolding scan
  scan-IsBalanced v reason e x h =
      let o = claim_orphans b e c.reaper_min_idle_ms c.reaper_batch x.queue in
      let counted = count_scan b c now v (length o.0) x.stats in
      let y = recover_all-Steps v reason o.0 (record x { queue = o.1; stats = counted }) in
      (omega (arith, y.0, y.2), omega (arith, y.2), y.1)
