-- ===== src/Queue/Store/Alone.antt =====
-- One call of `transition` on a page whose key lasts, while nobody else acts on the job.
use mathlib.Core.List.{map}
use mathlib.Core.Path.{subst}
use ocr_orchestrator.Common.{
  ℕ, zero, suc, ◌+◌, ◌≤◌, ◌≡◌, refl, ap, ◌∙◌, inl, inr, Option, none, some, List, [], ◌∷◌, arith,
  Bool, Bool-cases, get_elem?, set, if◌then◌else◌,
}
use ocr_orchestrator.Queue.State.{PageState, contains}
use ocr_orchestrator.Queue.Hashes.{Redis, PageHash, evict, live_page, pexpire_page}
use ocr_orchestrator.Queue.Store.{
  Call, TransitionResult, transition, transition_script, call_script, finish, attempt, sources_for,
  commit_page, renew_pages,
}
use ocr_orchestrator.Queue.Store.Pages.{Until, live_page-Kept}

-- The page at the index `i` is in the state `s`, and its key is there up to the time `h`.
pub record Holds (h i : ℕ) (s : PageState) (ps : List (Option PageHash)) : Type 0 where
  pub page : PageHash
  pub found : get_elem? ps i ≡ some (some page)
  pub at_state : page.state ≡ s
  pub lasts : Until h page.expires_at

same_entry : (p x : Option PageHash) → ◌≡◌ {A = Option (Option PageHash)} (some p) (some x) → p ≡ x
same_entry p x e = cc

same_state :
    (x p : PageHash)
    → ◌≡◌ {A = Option (Option PageHash)} (some (some x)) (some (some p))
    → x.state ≡ p.state
same_state x p e = ground arith

get_elem?-map :
    (clock : ℕ) (ps : List (Option PageHash)) (i : ℕ) (x : Option PageHash)
    → get_elem? ps i ≡ some x
    → get_elem? (map (live_page clock) ps) i ≡ some (live_page clock x)
get_elem?-map clock [] i x e = ground arith
get_elem?-map clock (p ∷ ps) zero x e = ap (λ o. some (live_page clock o)) (same_entry p x e)
get_elem?-map clock (p ∷ ps) (suc i) x e = get_elem?-map clock ps i x e

get_elem?-set :
    (ps : List (Option PageHash)) (i : ℕ) (x y : Option PageHash)
    → get_elem? ps i ≡ some x
    → get_elem? (set ps i y) i ≡ some y
get_elem?-set [] i x y e = ground arith
get_elem?-set (p ∷ ps) zero x y e = refl
get_elem?-set (p ∷ ps) (suc i) x y e = get_elem?-set ps i x y e

pexpire-Holds :
    (h at : ℕ) (s : PageState) (p : Option PageHash) (ps : List (Option PageHash))
    → h ≤ at
    → Holds h 0 s (p ∷ ps)
    → Holds h 0 s (pexpire_page at p ∷ ps)
pexpire-Holds h at s none ps late k = ground (arith, k.found)
pexpire-Holds h at s (some p) ps late k = record {
  page = record p { expires_at = some at };
  found = refl;
  at_state = same_state p k.page k.found ∙ k.at_state;
  lasts = late;
}

renew_pages-Holds :
    (h at n reached i : ℕ) (s : PageState) (ps : List (Option PageHash))
    → h ≤ at
    → Holds h i s ps
    → Holds h i s (renew_pages at n reached ps)
unfolding renew_pages
renew_pages-Holds h at zero reached i s ps late k = k
renew_pages-Holds h at (suc n) zero i s ps late k = k
renew_pages-Holds h at (suc n) (suc reached) i s [] late k = k
renew_pages-Holds h at (suc n) (suc reached) zero s (p ∷ ps) late k =
    let touched = pexpire-Holds h at s p ps late k in
    record {
      page = touched.page;
      found = touched.found;
      at_state = touched.at_state;
      lasts = touched.lasts;
    }
renew_pages-Holds h at (suc n) (suc reached) (suc i) s (p ∷ ps) late k =
    let rest =
      renew_pages-Holds h at n reached i s ps late
        (record { page = k.page; found = k.found; at_state = k.at_state; lasts = k.lasts }) in
    record { page = rest.page; found = rest.found; at_state = rest.at_state; lasts = rest.lasts }

-- The page that the script finds.
live_found :
    (clock h i : ℕ) (s : PageState) (ps : List (Option PageHash)) (k : Holds h i s ps)
    → clock ≤ h
    → get_elem? (map (live_page clock) ps) i ≡ some (some k.page)
live_found clock h i s ps k early =
    get_elem?-map clock ps i (some k.page) k.found
    ∙ ap some (live_page-Kept h clock (some k.page) early k.lasts)

pub live_holder :
    (clock h i : ℕ) (s : PageState) (ps : List (Option PageHash)) (k : Holds h i s ps)
    → clock ≤ h
    → live_page clock (some k.page) ≡ some k.page
live_holder clock h i s ps k early = live_page-Kept h clock (some k.page) early k.lasts

-- How a call ends that finds the page in the state `s`.
pub record Answers (h : ℕ) (c : Call) (s : PageState) (ok : Bool)
    (x : Option (TransitionResult × Redis)) : Type 0 where
  pub outcome : TransitionResult
  pub store : Redis
  pub ended : x ≡ some (outcome, store)
  pub is_ok : outcome.ok ≡ ok
  pub kept : Holds h c.index (if ok then c.to else s) store.pages

attempt-Answers :
    (ttl h : ℕ) (c : Call) (r : Redis) (p : PageHash) (sources : List PageState)
    → h ≤ c.clock + ttl
    → get_elem? r.pages c.index ≡ some (some p)
    → Until h p.expires_at
    → Answers h c p.state
        (contains sources p.state)
        (some (finish ttl c (attempt ttl sources c r (some (some p)))))
unfolding attempt finish
attempt-Answers ttl h c r p sources late e lasts = elim (Bool-cases (contains sources p.state)) [
  | inl legal ↦ rw legal (record {
    outcome = _;
    store = _;
    ended = refl;
    is_ok = refl;
    kept = renew_pages-Holds h (c.clock + ttl) _ c.reached c.index c.to _ late (record {
      page = commit_page ttl c p;
      found = get_elem?-set r.pages c.index (some p) _ e;
      at_state = refl;
      lasts = late;
    });
  })
  | inr illegal ↦ rw illegal (record {
    outcome = _;
    store = _;
    ended = refl;
    is_ok = refl;
    kept =
        renew_pages-Holds h (c.clock + ttl) 0 c.reached c.index p.state r.pages late
          (record { page = p; found = e; at_state = refl; lasts = lasts });
  })
]

script-Answers :
    (ttl h : ℕ) (c : Call) (r : Redis) (s : PageState) (sources : List PageState)
    → c.clock ≤ h
    → h ≤ c.clock + ttl
    → Holds h c.index s r.pages
    → Answers h c s (contains sources s) (some (finish ttl c (transition_script ttl sources c r)))
unfolding transition_script evict
script-Answers ttl h c r s sources early late k =
    let e = live_found c.clock h c.index s r.pages k early in
    rw e (
      subst
        (λ t.
          Answers h c t (contains sources t)
            (some (finish ttl c (attempt ttl sources c (evict c.clock r) (some (some k.page))))))
        k.at_state (attempt-Answers ttl h c (evict c.clock r) k.page sources late e k.lasts))

call-Answers :
    (ttl h : ℕ) (c : Call) (r : Redis) (s x : PageState) (xs sources : List PageState)
    → sources ≡ x ∷ xs
    → c.clock ≤ h
    → h ≤ c.clock + ttl
    → Holds h c.index s r.pages
    → Answers h c s (contains sources s) (call_script ttl sources c r)
unfolding call_script
call-Answers ttl h c r s x xs [] e early late k = ground arith
call-Answers ttl h c r s x xs (y ∷ ys) e early late k =
    script-Answers ttl h c r s (y ∷ ys) early late k

-- A call on a page that is there takes effect exactly if its state is among the sources, of which
-- there is one at least, and the page then is in the new state, else in the old one.
pub transition-Answers :
    (ttl h : ℕ) (c : Call) (r : Redis) (s x : PageState) (xs : List PageState)
    → sources_for c.to c.allowed_from ≡ x ∷ xs
    → c.clock ≤ h
    → h ≤ c.clock + ttl
    → Holds h c.index s r.pages
    → Answers h c s (contains (sources_for c.to c.allowed_from) s) (transition ttl c r)
unfolding transition
transition-Answers ttl h c r s x xs e early late k =
    call-Answers ttl h c r s x xs (sources_for c.to c.allowed_from) e early late k
