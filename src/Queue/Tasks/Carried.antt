-- ===== src/Queue/Tasks/Carried.antt =====
-- What a task carries through its entries.
use ocr_orchestrator.Common.{
  ℕ, ◌+◌, ◌-◌, ◌<◌, ap, ◌∙◌, ◌≡◌, refl, Bool, true, false, List, [], ◌∷◌, if◌then◌else◌, arith,
}
use ocr_orchestrator.Queue.Tasks.{
  Value, Fields, Stream, main, PageTask, or_else, age_ms, Parsed, parsed, parse, first_fields,
  next_attempt, retry_fields, ◌>>=◌,
}

pub parse-first_fields :
    (s : Stream) (id : ℕ) (job trace : Value) (now index : ℕ)
    → parse s id (first_fields job trace now index)
      ≡ parsed (record {
        entry_id = id;
        job_id = job;
        page_index = index;
        enqueued_at_ms = now;
        trace_id = trace;
        recovered = false;
        stream = s;
        attempt = 0;
        first_enqueued_at_ms = now;
      })
unfolding parse
parse-first_fields s id job trace now index = refl

pub parse-retry_fields :
    (s : Stream) (id : ℕ) (counted : Bool) (now : ℕ) (t : PageTask)
    → parse s id (retry_fields counted now t)
      ≡ parsed (record t {
        entry_id = id;
        stream = s;
        recovered = false;
        enqueued_at_ms = now;
        attempt = next_attempt counted t;
        first_enqueued_at_ms = or_else t.first_enqueued_at_ms t.enqueued_at_ms;
      })
unfolding parse
parse-retry_fields s id counted now t = refl

-- A task that is put back again and again, each time under the id and at the time of a new entry.
abbrev pub requeued : List (ℕ × Bool × ℕ) → PageTask → Parsed PageTask
requeued [] t = parsed t
requeued ((id, counted, now) ∷ more) t =
    parse main id (retry_fields counted now t) >>= λ u. requeued more u

abbrev pub origin : PageTask → ℕ
origin t = or_else t.first_enqueued_at_ms t.enqueued_at_ms

abbrev pub count_counted : List (ℕ × Bool × ℕ) → ℕ
count_counted [] = 0
count_counted ((id, counted, now) ∷ more) = (if counted then 1 else 0) + count_counted more

-- What a chain of requeues keeps of a task, and what it counts.
pub record Carries (n : ℕ) (t u : PageTask) : Type 0 where
  pub same_job : u.job_id ≡ t.job_id
  pub same_page : u.page_index ≡ t.page_index
  pub same_trace : u.trace_id ≡ t.trace_id
  pub same_age : (now : ℕ) → age_ms now u ≡ age_ms now t
  pub attempts_counted : u.attempt ≡ t.attempt + n

Carries-trans :
    (m n k : ℕ) (t u v : PageTask) → Carries m t u → Carries n u v → m + n ≡ k → Carries k t v
Carries-trans m n k t u v a b e = record {
  same_job = b.same_job ∙ a.same_job;
  same_page = b.same_page ∙ a.same_page;
  same_trace = b.same_trace ∙ a.same_trace;
  same_age = λ now. b.same_age now ∙ a.same_age now;
  attempts_counted = omega (arith, a.attempts_counted, b.attempts_counted);
}

origin_kept : (n now : ℕ) → 0 < n → 0 < or_else n now
origin_kept n now h = ground arith

-- The task of the entry that a requeue writes.
abbrev put_back : (id : ℕ) (counted : Bool) (now : ℕ) → PageTask → PageTask
put_back id counted now t = record t {
  entry_id = id;
  stream = main;
  recovered = false;
  enqueued_at_ms = now;
  attempt = next_attempt counted t;
  first_enqueued_at_ms = origin t;
}

put_back-Carries :
    (id : ℕ) (counted : Bool) (now : ℕ) (t : PageTask)
    → 0 < origin t
    → Carries (if counted then 1 else 0) t (put_back id counted now t)
put_back-Carries id counted now t h = record {
  same_job = refl;
  same_page = refl;
  same_trace = refl;
  same_age = λ at. ap (λ n. at - n) (kept (origin t) h);
  attempts_counted = counts counted;
}
  where
    kept : (n : ℕ) → 0 < n → or_else n now ≡ n
    kept n p = ground arith

    counts : (c : Bool) → next_attempt c t ≡ t.attempt + (if c then 1 else 0)
    counts true = refl
    counts false = omega arith

-- A task that is put back any number of times always parses, and keeps its job, its page, its trace
-- and its age; its attempts grow by the requeues that count. The time of its first entry is not 0.
pub requeued-Carries :
    (l : List (ℕ × Bool × ℕ)) (t : PageTask)
    → 0 < origin t
    → (u : PageTask) × (requeued l t ≡ parsed u) × Carries (count_counted l) t u
requeued-Carries [] t h = (
  t,
  refl,
  record {
    same_job = refl;
    same_page = refl;
    same_trace = refl;
    same_age = λ at. refl;
    attempts_counted = omega arith;
  },
)
requeued-Carries ((id, counted, now) ∷ more) t h =
    let u = put_back id counted now t in
    let first = put_back-Carries id counted now t h in
    let rest = requeued-Carries more u (origin_kept (origin t) now h) in
    (
      rest.0,
      rw (parse-retry_fields main id counted now t) rest.1,
      Carries-trans _ _ _ t u rest.0 first rest.2 refl,
    )

-- A task knows the entry that it was read from.
pub parse_entry :
    (s : Stream) (i : ℕ) (f : Fields) {t : PageTask}
    → parse s i f ≡ parsed t
    → (t.entry_id ≡ i) × (t.stream ≡ s)
unfolding parse
parse_entry s i f e = ground arith
