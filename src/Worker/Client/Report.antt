-- ===== src/Worker/Client/Report.antt =====
-- What a request through app/worker/client.py leaves in the breaker of its endpoint.
use ocr_orchestrator.Common.{
  ℕ, ◌+◌, ◌≤◌, ◌≡◌, refl, ◌∙◌, ◌≢◌, Bool, true, false, Option, none, some, arith, if◌then◌else◌,
}
use ocr_orchestrator.RateLimit.Breaker
use ocr_orchestrator.RateLimit.Breaker.{Breaker, half_open}
use ocr_orchestrator.RateLimit.Breaker.Probes.{allow_half}
use ocr_orchestrator.RateLimit.Bucket
use ocr_orchestrator.RateLimit.Adaptive
use ocr_orchestrator.RateLimit.Retry.{Error, circuit_open, rate_limit_timeout}
use ocr_orchestrator.Worker.Client.{
  Setup, Endpoint, Try, Response, replied, failed, raised, post, report, through_slot, ask_breaker,
  ask_rate, ask_slot, send,
}

ask_rate-breaker :
    (c : Option Adaptive.Config) (now : ℕ) (e : Endpoint) → (ask_rate c now e).1.breaker ≡ e.breaker
unfolding ask_rate
ask_rate-breaker none now e = refl
ask_rate-breaker (some g) now e = refl

ask_slot-breaker :
    (s : Setup) (c : Option Bucket.Config) (t : Try) (rate : Option ℕ) (e : Endpoint)
    → (ask_slot s c t rate e).1.breaker ≡ e.breaker
unfolding ask_slot
ask_slot-breaker s none t rate e = refl
ask_slot-breaker s (some g) t rate e = refl

-- The saturation did not come from the endpoint's side.
module _ (s : Setup) (t : Try) (wait : ℕ)
    (genuine : t.response ≢ failed (rate_limit_timeout wait)) where
  report_other :
      (r : Response) (e : Endpoint)
      → r ≢ failed (rate_limit_timeout wait)
      → (report s t.later r e).0 ≢ raised (rate_limit_timeout wait)
  unfolding report
  report_other (replied latency) e other = λ h. cc
  report_other (failed err) e other = λ h. other (cc)

  send_refused :
      (x : Option Error × Endpoint)
      → (send s t x).0 ≡ raised (rate_limit_timeout wait)
      → (send s t x).1.breaker ≡ x.1.breaker
  unfolding send
  send_refused (some r, e) h = refl
  send_refused (none, e) h = absurd (report_other t.response e genuine h)

  through_slot_refused :
      (x : Option Error × Endpoint)
      → (through_slot s t x).0 ≡ raised (rate_limit_timeout wait)
      → (through_slot s t x).1.breaker ≡ x.1.breaker
  unfolding through_slot
  through_slot_refused (some r, e) h = refl
  through_slot_refused (none, e) h =
      let r = ask_rate s.controller t.now e in
      send_refused (ask_slot s s.limiter t r.0 r.1) h
      ∙ ask_slot-breaker s s.limiter t r.0 r.1
      ∙ ask_rate-breaker s.controller t.now e

  through_slot_open :
      (after : ℕ) (e : Endpoint)
      → (through_slot s t (some (circuit_open after), e)).0 ≢ raised (rate_limit_timeout wait)
  unfolding through_slot
  through_slot_open after e = λ h. cc

  -- A refusal for saturation means that the breaker had let the request through.
  ask_breaker_allowed :
      (g : Breaker.Config) (e : Endpoint)
      → (through_slot s t (ask_breaker (some g) t.now e)).0 ≡ raised (rate_limit_timeout wait)
      → (Breaker.run g Breaker.allow t.now e.breaker).0.allowed ≡ true
  unfolding ask_breaker
  ask_breaker_allowed g e =
      let v = Breaker.run g Breaker.allow t.now e.breaker in
      allowed_of v.0.allowed v.0.retry_after_ms (record e { breaker = some v.1 })
    where
      allowed_of :
          (allowed : Bool) (after : ℕ) (f : Endpoint)
          → (through_slot s t (if allowed then none else some (circuit_open after), f)).0
            ≡ raised (rate_limit_timeout wait)
          → allowed ≡ true
      allowed_of true after f h = refl
      allowed_of false after f h = absurd (through_slot_open after f h)

ask_breaker_admits :
    (s : Setup) (t : Try) (wait : ℕ)
    → t.response ≢ failed (rate_limit_timeout wait)
    → (c : Option Breaker.Config) (e : Endpoint) (g : Breaker.Config) (b : Breaker) → c ≡ some g
    → e.breaker ≡ some b
    → b.state ≡ half_open
    → t.now ≤ b.expires_at
    → (through_slot s t (ask_breaker c t.now e)).0 ≡ raised (rate_limit_timeout wait)
    → (ask_breaker c t.now e).1.breaker
      ≡ some (record b { probes = b.probes + 1; expires_at = t.now + g.ttl })
unfolding ask_breaker
ask_breaker_admits s t wait genuine none e g b sb eb half alive refused = cc
ask_breaker_admits s t wait genuine (some f) e g b sb eb half alive refused =
    let allowed = ask_breaker_allowed s t wait genuine f e refused in
    let step = allow_half f t.now b half alive in ground (arith, allowed, step)

-- A probe that the breaker admits and the token bucket refuses is never reported: the page sees
-- saturation, the circuit keeps its state, and the probe slot stays taken.
pub saturation_leaks :
    (s : Setup) (t : Try) (e : Endpoint) (g : Breaker.Config) (b : Breaker) (wait : ℕ)
    → s.breaker ≡ some g
    → e.breaker ≡ some b
    → b.state ≡ half_open
    → t.now ≤ b.expires_at
    → (post s t e).0 ≡ raised (rate_limit_timeout wait)
    → t.response ≢ failed (rate_limit_timeout wait)
    → let after = (post s t e).1.breaker in
      (after ≡ some (record b { probes = b.probes + 1; expires_at = t.now + g.ttl }))
unfolding post
saturation_leaks s t e g b wait sb eb half alive refused genuine =
    through_slot_refused s t wait genuine (ask_breaker s.breaker t.now e) refused
    ∙ ask_breaker_admits s t wait genuine s.breaker e g b sb eb half alive refused
