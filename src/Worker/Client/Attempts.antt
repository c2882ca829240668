-- ===== src/Worker/Client/Attempts.antt =====
-- The retry loop of app/worker/client.py, against the attempts it could make.
use mathlib.Core.Path.{subst}
use ocr_orchestrator.Common.{
  ℕ, zero, suc, ◌+◌, ◌≤◌, ◌<◌, ◌≡◌, refl, ap, Bool, true, false, List, [], ◌∷◌, arith, length, ◌==◌,
  Bool-cases, inl, inr,
}
use ocr_orchestrator.RateLimit.Retry.{Disposition, retry, classify}
use ocr_orchestrator.Worker.Client.{
  Setup, Endpoint, Try, Posted, returned, raised, Looped, attempts, post, post_up_to,
  post_with_retries, retries, delay_after,
}

-- An error that a further attempt may get over.
abbrev pub IsTransient : Posted → Type 0
IsTransient returned = ⊥
IsTransient (raised err) = classify err ≡ retry

retries-retry : (d : Disposition) (left : ℕ) → retries d (suc left) ≡ true → d ≡ retry
retries-retry d left h = ground arith

retry-retries : (d : Disposition) (left : ℕ) → d ≡ retry → retries d (suc left) ≡ true
retry-retries d left h = ground arith

true_not_false : (b : Bool) → b ≡ true → b ≡ false → ⊥
true_not_false b h k = cc

module _ (s : Setup) (env : ℕ → Try) (e : Endpoint) where
  -- The keys of the endpoint before the attempt `k`, and the outcome of that attempt, if each attempt
  -- follows on the one before.
  abbrev pub endpoint_before : ℕ → Endpoint
  endpoint_before zero = e
  endpoint_before (suc k) = (post s (env k) (endpoint_before k)).1

  abbrev pub outcome : ℕ → Posted
  outcome k = (post s (env k) (endpoint_before k)).0

  -- What a loop satisfies that goes on from the outcome of the attempt `i`, with `left` to go.
  record Finished (left i slept : ℕ) (r : Looped) : Type 0 where
    final : ℕ
    counted : r.posts ≡ suc final
    least : i ≤ final
    most : final ≤ i + left
    slept_between : length r.delays + i ≡ slept + final
    is_final : r.result ≡ outcome final
    leaves : r.endpoint ≡ endpoint_before (suc final)
    transient : (k : ℕ) → i ≤ k → k < final → IsTransient (outcome k)
    gives_up : IsTransient r.result → final ≡ i + left

  attempts-Finished :
      (left i : ℕ) (delays : List ℕ) (first : Posted × Endpoint)
      → first.0 ≡ outcome i
      → first.1 ≡ endpoint_before (suc i)
      → Finished left i (length delays) (attempts s env left i delays first)
  unfolding attempts
  attempts-Finished left i delays (returned, f) o n = record {
    final = i;
    counted = refl;
    least = omega arith;
    most = omega arith;
    slept_between = refl;
    is_final = o;
    leaves = n;
    transient = λ k low high. absurd (omega arith);
    gives_up = λ h. absurd h;
  }
  attempts-Finished zero i delays (raised err, f) o n = record {
    final = i;
    counted = refl;
    least = omega arith;
    most = omega arith;
    slept_between = refl;
    is_final = o;
    leaves = n;
    transient = λ k low high. absurd (omega arith);
    gives_up = λ h. omega arith;
  }
  attempts-Finished (suc left) i delays (raised err, f) o n =
      let rest =
        attempts-Finished left (suc i) (delay_after s (env i) i err ∷ delays)
          (post s (env (suc i)) f) (ap (λ z. (post s (env (suc i)) z).0) n)
          (ap (λ z. (post s (env (suc i)) z).1) n) in
      elim (Bool-cases (retries (classify err) (suc left))) [
        | inl again ↦ rw again (record {
          final = rest.final;
          counted = rest.counted;
          least = omega (arith, rest.least);
          most = omega (arith, rest.most);
          slept_between = omega (arith, rest.slept_between);
          is_final = rest.is_final;
          leaves = rest.leaves;
          transient = λ k low high. elim (Bool-cases (k == i)) [
            | inl here ↦
                let at : i ≡ k = ground arith in
                subst (λ j. IsTransient (outcome j)) at
                  (subst IsTransient o (retries-retry (classify err) left again))
            | inr later ↦ rest.transient k (ground arith) high
          ];
          gives_up = λ h. omega (arith, rest.gives_up h);
        })
        | inr over ↦ rw over (record {
          final = i;
          counted = refl;
          least = omega arith;
          most = omega arith;
          slept_between = refl;
          is_final = o;
          leaves = n;
          transient = λ k low high. absurd (omega arith);
          gives_up = λ h. absurd (
              true_not_false (retries (classify err) (suc left))
                (retry-retries (classify err) left h) over);
        })
      ]

  -- What the loop leaves, if `n` attempts are allowed.
  pub record Tried (n : ℕ) (r : Looped) : Type 0 where
    pub final : ℕ
    pub counted : r.posts ≡ suc final
    pub within : final < n
    pub slept_between : length r.delays ≡ final
    pub is_final : r.result ≡ outcome final
    pub leaves : r.endpoint ≡ endpoint_before (suc final)
    pub transient : (k : ℕ) → k < final → IsTransient (outcome k)
    pub gives_up : IsTransient r.result → suc final ≡ n

  post_up_to-Tried : (n : ℕ) → 0 < n → Tried n (post_up_to n s env e)
  unfolding post_up_to
  post_up_to-Tried zero h = absurd (omega arith)
  post_up_to-Tried (suc left) h =
      let r = attempts-Finished left 0 [] (post s (env 0) e) refl refl in
      record {
        final = r.final;
        counted = r.counted;
        within = omega (arith, r.most);
        slept_between = omega (arith, r.slept_between);
        is_final = r.is_final;
        leaves = r.leaves;
        transient = λ k high. r.transient k (omega arith) high;
        gives_up = λ k. omega (arith, r.gives_up k);
      }

-- With at least one attempt allowed, the loop makes between one and max_attempts calls of _post, and
-- sleeps once between each two of them. It makes a further call exactly as long as the outcome of the last one is a transient
-- error and calls are left: every outcome but the last is a transient error, the loop ends with the last
-- outcome and with the keys that it left, and it ends with a transient error only after max_attempts.
pub post_with_retries_attempts :
    (s : Setup) (env : ℕ → Try) (e : Endpoint)
    → 0 < s.max_attempts
    → Tried s env e s.max_attempts (post_with_retries s env e)
unfolding post_with_retries
post_with_retries_attempts s env e some_attempt =
    post_up_to-Tried s env e s.max_attempts some_attempt
