-- ===== src/Worker/Pipeline/Told.antt =====
-- app/worker/pipeline.py: the page.final events of the accesses of the store, while nobody else acts
-- on the job.
use ocr_orchestrator.Common.{
  ℕ, zero, suc, ◌+◌, ◌≤◌, ◌≡◌, refl, sym, ap, ◌∙◌, inl, inr, Bool, true, false, Option, none, some,
  List, [], ◌∷◌, ◌++◌, String, arith, Bool-cases, if◌then◌else◌, count_if, take,
}
use ocr_orchestrator.Queue.State.{
  PageState, can_transition, is_terminal, is_running, reclaim_target,
}
use ocr_orchestrator.Queue.Hashes.{Redis}
use ocr_orchestrator.Queue.Store.{TransitionResult, completed_job}
use ocr_orchestrator.Queue.Store.Alone.{Holds}
use ocr_orchestrator.Worker.Pipeline.{
  Event, page_partial, page_final, job_complete, Env, World, enter, get_page, applied, publications,
  move, emit, settle, release, release_claim, roll_back,
}
use ocr_orchestrator.Worker.Pipeline.Alone.{
  IsAlone, get_page-In, step-In, emit-In, settle-In, release-In,
}

abbrev pub is_final : Event → Bool
is_final (page_partial i s) = false
is_final (page_final i s) = true
is_final (job_complete total count) = false

-- How many pages were announced as final.
abbrev pub finals : List Event → ℕ
finals = count_if is_final

-- One, for a terminal state.
abbrev pub ended : PageState → ℕ
ended s = if is_terminal s then 1 else 0

finals-append : (xs ys : List Event) → finals (xs ++ ys) ≡ finals xs + finals ys
finals-append [] ys = omega arith
finals-append (x ∷ xs) ys = omega (arith, finals-append xs ys)

completion_finals :
    (b : Bool) (n : ℕ) (total count : Option ℕ)
    → finals (take n (if b then job_complete total count ∷ [] else [])) ≡ 0
completion_finals true zero total count = refl
completion_finals true (suc zero) total count = refl
completion_finals true (suc (suc n)) total count = refl
completion_finals false zero total count = refl
completion_finals false (suc n) total count = refl

publication_finals :
    (n : ℕ) (e : Event) (t : TransitionResult)
    → 1 ≤ n
    → finals (take n (publications e t)) ≡ (if is_final e then 1 else 0)
publication_finals zero e t h = ground arith
publication_finals (suc n) e t h =
    omega (arith, completion_finals (completed_job t) n t.total_pages t.done_count)

applied-events :
    (to : PageState) (e : World) (x : Option (TransitionResult × Redis))
    → (applied to e x).1.events ≡ e.events
applied-events to e none = refl
applied-events to e (some (t, r)) = refl

ended_same :
    (b : Bool) (to s : PageState)
    → is_terminal to ≡ false
    → is_terminal s ≡ false
    → ended (if b then to else s) ≡ ended s
ended_same b to s e f = ground arith

ended_yes : (s : PageState) → is_terminal s ≡ true → ended s ≡ 1
ended_yes s e = ground arith

ended_no : (s : PageState) → is_terminal s ≡ false → ended s ≡ 0
ended_no s e = ground arith

told-finals :
    (b : Bool) (w : World) (es : List Event)
    → finals (if b then record w { events = w.events ++ es } else w).events
      ≡ finals w.events + (if b then finals es else 0)
told-finals true w es = finals-append w.events es
told-finals false w es = omega arith

reclaim_live : (s to : PageState) → reclaim_target s ≡ some to → ended to ≡ ended s
reclaim_live s to e = ground arith

module _ (v : Env) where
  roll_back-events :
      (s : PageState) (target : Option PageState) (w : World)
      → (roll_back v s target w).events ≡ w.events
  roll_back-events s none w = refl
  roll_back-events s (some to) w = applied-events to (enter v w) _

  release-events : (s : Option PageState) (w : World) → (release v s w).events ≡ w.events
  release-events none w = refl
  release-events (some s) w = elim (Bool-cases (is_running s)) [
    | inl held ↦ rw held (roll_back-events s (reclaim_target s) w)
    | inr free ↦ rw free refl
  ]

  emit-finals :
      (e : Event) (t : TransitionResult) (w : World)
      → ((n : ℕ) → 1 ≤ v.heard n)
      → finals (emit v e t w).events
        ≡ finals w.events + (if t.ok then (if is_final e then 1 else 0) else 0)
  emit-finals e t w heard =
      told-finals t.ok w (take (v.heard w.tick) (publications e t))
      ∙ ap (λ k. finals w.events + (if t.ok then k else 0))
          (publication_finals (v.heard w.tick) e t (heard w.tick))

-- The page is in the state `s`, and every page.final since the start was for its becoming terminal.
pub record Stands (v : Env) (h a d : ℕ) (s : PageState) (w : World) : Type 0 where
  pub holds : Holds h v.index s w.redis.pages
  pub counted : finals w.events + a ≡ d + ended s

module _ (v : Env) (h : ℕ) (q : IsAlone v h) (heard : (n : ℕ) → 1 ≤ v.heard n) (a d : ℕ) where
  pub get_page-Stands :
      (s : PageState) (w : World)
      → Stands v h a d s w
      → ((get_page v w).0 ≡ some s) × Stands v h a d s (get_page v w).1
  get_page-Stands s w k =
      let g = get_page-In v h q s w k.holds in (g.0, record { holds = g.1; counted = k.counted })

  pub step-Stands :
      (to s : PageState) (fields : List (String × String)) (w : World)
      → is_terminal to ≡ false
      → is_terminal s ≡ false
      → Stands v h a d s w
      → let m = move v to none fields w in
        (m.0.ok ≡ can_transition s to) × Stands v h a d (if can_transition s to then to else s) m.1
  step-Stands to s fields w e f k =
      let m = step-In v h q to s fields w k.holds in
      (
        m.0,
        record {
          holds = m.1;
          counted =
              ap (λ es. finals es + a) (applied-events to (enter v w) _)
              ∙ k.counted
              ∙ ap (λ n. d + n) (sym (ended_same (can_transition s to) to s e f));
        },
      )

  pub emit-Stands :
      (s : PageState) (e : Event) (m : TransitionResult × World)
      → is_final e ≡ false
      → Stands v h a d s m.1
      → Stands v h a d s (emit v e m.0 m.1)
  emit-Stands s e m f k = record {
    holds = emit-In v h q s e m k.holds;
    counted = ground (arith, emit-finals v e m.0 m.1 heard, k.counted);
  }

  settle-finals :
      (to s : PageState) (fields : List (String × String)) (w : World)
      → can_transition s to ≡ true
      → Holds h v.index s w.redis.pages
      → finals (settle v to fields w).1.events ≡ finals w.events + 1
  settle-finals to s fields w legal k =
      let m = move v to none fields w in
      emit-finals v (page_final v.index to) m.0 m.1 heard
      ∙ ap (λ b. finals m.1.events + (if b then 1 else 0))
          ((step-In v h q to s fields w k).0 ∙ legal)
      ∙ ap (λ es. finals es + 1) (applied-events to (enter v w) _)

  pub settle-Stands :
      (to s : PageState) (fields : List (String × String)) (w : World)
      → can_transition s to ≡ true
      → is_terminal to ≡ true
      → is_terminal s ≡ false
      → Stands v h a d s w
      → Stands v h a d to (settle v to fields w).1
  settle-Stands to s fields w legal e f k = record {
    holds = settle-In v h q to s fields w legal k.holds;
    counted =
        omega (
          arith,
          settle-finals to s fields w legal k.holds,
          k.counted,
          ended_yes to e,
          ended_no s f,
        );
  }

  pub release-Stands :
      (s to : PageState) (w : World)
      → reclaim_target s ≡ some to
      → Stands v h a d s w
      → Stands v h a d to (release_claim v w)
  release-Stands s to w e k = record {
    holds = release-In v h q s to w e k.holds;
    counted =
        ap (λ es. finals es + a) (release-events v (get_page v w).0 (get_page v w).1)
        ∙ k.counted
        ∙ ap (λ n. d + n) (sym (reclaim_live s to e));
  }
