-- ===== src/Queue/Store/Pages.antt =====
-- Lists of page hashes: how many are terminal, and until when they are kept.
use ocr_orchestrator.Common.{
  ℕ, zero, suc, ◌+◌, ◌≤◌, ◌<◌, ◌≡◌, refl, ap, Bool, false, Option, none, some, List, [], ◌∷◌, arith,
  if◌then◌else◌, get_elem?, set, length, map, count_if, All,
}
use ocr_orchestrator.Queue.State.{is_terminal}
use ocr_orchestrator.Queue.Hashes.{PageHash, live_page, pexpire_page}
use ocr_orchestrator.Queue.Store.{renew_pages}

abbrev pub terminal_page : Option PageHash → Bool
terminal_page none = false
terminal_page (some p) = is_terminal p.state

-- How many pages of the job are in a terminal state.
abbrev pub count_terminal : List (Option PageHash) → ℕ
count_terminal = count_if terminal_page

-- The key does not expire up to the given time.
abbrev pub Until : ℕ → Option ℕ → Type 0
Until t none = Unit
Until t (some at) = t ≤ at

abbrev pub Kept : ℕ → Option PageHash → Type 0
Kept t none = ⊥
Kept t (some p) = Until t p.expires_at

pub live_page-Kept :
    (t clock : ℕ) (p : Option PageHash) → clock ≤ t → Kept t p → live_page clock p ≡ p
live_page-Kept t clock none h k = absurd k
live_page-Kept t clock (some p) h k = ground arith

pub live_pages-Kept :
    (t clock : ℕ) (ps : List (Option PageHash))
    → clock ≤ t
    → All (Kept t) ps
    → map (live_page clock) ps ≡ ps
live_pages-Kept t clock [] h k = refl
live_pages-Kept t clock (p ∷ ps) h k =
    rw (live_page-Kept t clock p h k.0, live_pages-Kept t clock ps h k.1)

pub Until-mono : (t u : ℕ) (e : Option ℕ) → t ≤ u → Until u e → Until t e
Until-mono t u none h k = tt
Until-mono t u (some at) h k = omega arith

pub Kept-mono : (t u : ℕ) (p : Option PageHash) → t ≤ u → Kept u p → Kept t p
Kept-mono t u none h k = k
Kept-mono t u (some p) h k = Until-mono t u p.expires_at h k

pub All-Kept-mono :
    (t u : ℕ) (ps : List (Option PageHash)) → t ≤ u → All (Kept u) ps → All (Kept t) ps
All-Kept-mono t u [] h k = tt
All-Kept-mono t u (p ∷ ps) h k = (Kept-mono t u p h k.0, All-Kept-mono t u ps h k.1)

pub set-Kept :
    (t : ℕ) (ps : List (Option PageHash)) (i : ℕ) (p : Option PageHash)
    → Kept t p
    → All (Kept t) ps
    → All (Kept t) (set ps i p)
set-Kept t [] i p h k = tt
set-Kept t (q ∷ ps) zero p h k = (h, k.1)
set-Kept t (q ∷ ps) (suc i) p h k = (k.0, set-Kept t ps i p h k.1)

pub count_terminal-set :
    (ps : List (Option PageHash)) (i : ℕ) (p q : PageHash)
    → get_elem? ps i ≡ some (some p)
    → is_terminal p.state ≡ false
    → count_terminal (set ps i (some q))
      ≡ (if is_terminal q.state then 1 else 0) + count_terminal ps
count_terminal-set [] i p q e h = ground arith
count_terminal-set (x ∷ ps) zero p q e h = ground arith
count_terminal-set (x ∷ ps) (suc i) p q e h = omega (arith, count_terminal-set ps i p q e h)

pub count_terminal-le : (ps : List (Option PageHash)) → count_terminal ps ≤ length ps
count_terminal-le [] = omega arith
count_terminal-le (p ∷ ps) = ground (arith, count_terminal-le ps)

pexpire_page-terminal :
    (at : ℕ) (p : Option PageHash) → terminal_page (pexpire_page at p) ≡ terminal_page p
pexpire_page-terminal at none = refl
pexpire_page-terminal at (some p) = refl

pub length-renew_pages :
    (at n reached : ℕ) (ps : List (Option PageHash))
    → length (renew_pages at n reached ps) ≡ length ps
unfolding renew_pages
length-renew_pages at zero reached ps = refl
length-renew_pages at (suc n) zero ps = refl
length-renew_pages at (suc n) (suc reached) [] = refl
length-renew_pages at (suc n) (suc reached) (p ∷ ps) = ap suc (length-renew_pages at n reached ps)

pub count_terminal-renew_pages :
    (at n reached : ℕ) (ps : List (Option PageHash))
    → count_terminal (renew_pages at n reached ps) ≡ count_terminal ps
unfolding renew_pages
count_terminal-renew_pages at zero reached ps = refl
count_terminal-renew_pages at (suc n) zero ps = refl
count_terminal-renew_pages at (suc n) (suc reached) [] = refl
count_terminal-renew_pages at (suc n) (suc reached) (p ∷ ps) =
    rw (pexpire_page-terminal at p, count_terminal-renew_pages at n reached ps)

-- A sweep that gets through every page keeps them all for another TTL.
pub renew_pages-Kept :
    (t at n reached : ℕ) (ps : List (Option PageHash))
    → n ≡ length ps
    → n ≤ reached
    → t ≤ at
    → All (Kept 0) ps
    → All (Kept t) (renew_pages at n reached ps)
unfolding renew_pages
renew_pages-Kept t at zero reached [] e h k a = tt
renew_pages-Kept t at zero reached (p ∷ ps) e h k a = absurd (omega arith)
renew_pages-Kept t at (suc n) zero ps e h k a = absurd (omega arith)
renew_pages-Kept t at (suc n) (suc reached) [] e h k a = tt
renew_pages-Kept t at (suc n) (suc reached) (none ∷ ps) e h k a = absurd a.0
renew_pages-Kept t at (suc n) (suc reached) (some p ∷ ps) e h k a =
    (k, renew_pages-Kept t at n reached ps (omega arith) (omega arith) k a.1)

pub renew_none-Kept :
    (t at n reached : ℕ) (ps : List (Option PageHash))
    → n ≡ 0
    → All (Kept t) ps
    → All (Kept t) (renew_pages at n reached ps)
unfolding renew_pages
renew_none-Kept t at n reached ps e a = rw (e, renew_pages) a

pub count_terminal-lt :
    (ps : List (Option PageHash)) (i : ℕ) (p : PageHash)
    → get_elem? ps i ≡ some (some p)
    → is_terminal p.state ≡ false
    → count_terminal ps < length ps
count_terminal-lt [] i p e h = ground arith
count_terminal-lt (x ∷ ps) zero p e h = ground (arith, count_terminal-le ps)
count_terminal-lt (x ∷ ps) (suc i) p e h = ground (arith, count_terminal-lt ps i p)
