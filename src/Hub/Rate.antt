-- ===== src/Hub/Rate.antt =====
-- server/hub.py: the rate limit of a connection's casts, over any second.
use thchaos_backend.Prelude.{
  ℕ, ◌+◌, ◌≤◌, ◌<◌, Bool, true, ◌&&◌, List, [], ◌∷◌, ◌++◌, length, leb, ltb, if◌then◌else◌, ◌≡◌,
  refl, arith, Bool-cases, inl, inr, ◌⊎◌, nat_beq_iff, ◌==◌, nat_eq, none, some, sym, subst, ◌∙◌,
}
use thchaos_backend.Protocol.Errors.{ProtocolError, protocol_rate_limited, protocol_error}
use thchaos_backend.Protocol.Payloads.{VoteCastPayload}
use thchaos_backend.Connection.{Client}
use thchaos_backend.Hub.State.{Hub, Outcome, done, protocol, update_link}
use thchaos_backend.Hub.Bot.{rate_limit, recent}
use thchaos_backend.Hub.Metrics.Rank.{tally}

-- In the second that ends with `w`.
abbrev pub in_second : ℕ → ℕ → Bool
in_second w t = leb t w && ltb w (t + 1000)

abbrev pub accepted_at : Outcome (Unit {0}) → ℕ → List ℕ → List ℕ
accepted_at (done a) now rest = now ∷ rest
accepted_at _ now rest = rest

-- Casts of one connection one after the other: the times of those that pass.
unfoldable pub limit_all : Client → List (VoteCastPayload × ℕ) → Hub → List ℕ
limit_all c [] h = []
limit_all c ((p, now) ∷ casts) h =
    let out = rate_limit c p now h in
    let rest = limit_all c casts out.1 in accepted_at out.0 now rest

-- The clock does not go back.
abbrev pub InOrder : ℕ → List (VoteCastPayload × ℕ) → Type 0
InOrder n [] = Unit
InOrder n ((p, now) ∷ casts) = (n ≤ now) × InOrder now casts

tally-recent :
    (w now : ℕ) (ts : List ℕ)
    → now ≤ w
    → tally (in_second w) ts ≤ tally (in_second w) (recent now ts)
unfolding recent
tally-recent w now [] e = omega arith
tally-recent w now (t ∷ ts) e = ground (arith, tally-recent w now ts)

tally-append :
    (p : ℕ → Bool) (xs : List ℕ) (x : ℕ)
    → tally p (xs ++ x ∷ []) ≡ tally p xs + (if p x then 1 else 0)
tally-append p [] x = ground arith
tally-append p (y ∷ xs) x = ground (arith, tally-append p xs x)

tally-length : (p : ℕ → Bool) (xs : List ℕ) → tally p xs ≤ length xs
tally-length p [] = omega arith
tally-length p (x ∷ xs) = ground (arith, tally-length p xs)

abbrev stamps : Client → Hub → List ℕ
stamps c h = (h.links c.id).cast_timestamps

rate_limit-cases :
    (c : Client) (p : VoteCastPayload) (now : ℕ) (h : Hub)
    → let out = rate_limit c p now h in
      let ts = recent now (stamps c h) in
      ((out.0 ≡ done tt)
        × (length ts < h.settings.max_casts_per_second)
        × (stamps c out.1 ≡ ts ++ now ∷ [])
        × (out.1.settings.max_casts_per_second ≡ h.settings.max_casts_per_second))
      ⊎ (((e : ProtocolError) × (out.0 ≡ protocol e))
          × (stamps c out.1 ≡ ts)
          × (out.1.settings.max_casts_per_second ≡ h.settings.max_casts_per_second))
unfolding rate_limit update_link
rate_limit-cases c p now h =
    let error : ProtocolError =
      protocol_error protocol_rate_limited "投票提交过于频繁" (("retry_after_ms", "1000") ∷ []) none
        (some p.cast_id) in
    let same : (c.id == c.id) ≡ true = (nat_beq_iff c.id c.id).1 refl in
    elim (Bool-cases (ltb (length (recent now (stamps c h))) h.settings.max_casts_per_second)) [
      | inl room ↦ inl (
        rw (same, room) refl,
        ground arith,
        rw (same, room, stamps, same) refl,
        rw (same, room) refl,
      )
      | inr full ↦
          inr (
            (error, rw (same, full) refl),
            rw (same, full, stamps, same) refl,
            rw (same, full) refl,
          )
    ]

abbrev one_if : Bool → ℕ
one_if b = if b then 1 else 0

in_second-le : (w t : ℕ) → in_second w t ≡ true → t ≤ w
in_second-le w t e = ground arith

-- One more pass: `k` have passed in a second before.
pass-below :
    (k limit n now v : ℕ) (ts : List ℕ)
    → k ≤ limit
    → (n ≤ v → k ≤ tally (in_second v) ts)
    → n ≤ now
    → length (recent now ts) < limit
    → k + one_if (in_second v now) ≤ limit
pass-below k limit n now v ts below kept later room = elim (Bool-cases (in_second v now)) [
  | inl now_in ↦
      let le = in_second-le v now now_in in
      rw now_in (
        omega (
          arith,
          kept (omega arith),
          tally-recent v now ts le,
          tally-length (in_second v) (recent now ts),
        ))
  | inr out ↦ rw out (omega arith)
]

pass-kept :
    (k n now v : ℕ) (ts : List ℕ)
    → (n ≤ v → k ≤ tally (in_second v) ts)
    → n ≤ now
    → now ≤ v
    → k + one_if (in_second v now) ≤ tally (in_second v) (recent now ts ++ now ∷ [])
pass-kept k n now v ts kept later e = omega (
  arith,
  kept (omega arith),
  tally-recent v now ts e,
  tally-append (in_second v) (recent now ts) now,
)

accepted-tally :
    (v now : ℕ) (rest : List ℕ)
    → tally (in_second v) (now ∷ rest) ≡ one_if (in_second v now) + tally (in_second v) rest
accepted-tally v now rest = ground arith

-- `f` counts what has passed before.
limit_all-bounded :
    (c : Client) (casts : List (VoteCastPayload × ℕ)) (h : Hub) (n limit : ℕ) (f : ℕ → ℕ)
    → h.settings.max_casts_per_second ≡ limit
    → ((w : ℕ) → f w ≤ limit)
    → ((w : ℕ) → n ≤ w → f w ≤ tally (in_second w) (stamps c h))
    → InOrder n casts
    → (w : ℕ) → f w + tally (in_second w) (limit_all c casts h) ≤ limit
unfolding limit_all
limit_all-bounded c [] h n limit f m below kept o w = omega (arith, below w)
limit_all-bounded c ((p, now) ∷ casts) h n limit f m below kept (later, o) w =
    elim (rate_limit-cases c p now h) [
      | inl (passed, room, new, same) ↦
          let after : Hub = (rate_limit c p now h).1 in
          let ih =
            limit_all-bounded c casts after now limit (λ v. f v + one_if (in_second v now))
              (same ∙ m)
              (λ v.
                pass-below (f v) limit n now v (stamps c h) (below v) (kept v) later
                  (omega (arith, room, m)))
              (λ v e.
                subst (λ ts. f v + one_if (in_second v now) ≤ tally (in_second v) ts) (sym new)
                  (pass-kept (f v) n now v (stamps c h) (kept v) later e))
              o w in
          rw passed (omega (arith, ih, accepted-tally w now (limit_all c casts after)))
      | inr ((error, refused), old, same) ↦ rw refused (
          limit_all-bounded c casts (rate_limit c p now h).1 now limit f (same ∙ m) below
            (λ v e.
              subst (λ ts. f v ≤ tally (in_second v) ts) (sym old)
                (omega (arith, kept v (omega arith), tally-recent v now (stamps c h) e)))
            o w)
    ]

-- If a new connection's casts come at times that do not go back, then in every second, whenever it
-- ends, at most `max_casts_per_second` of them pass the rate limit.
pub limit_all-second :
    (c : Client) (casts : List (VoteCastPayload × ℕ)) (h : Hub)
    → (h.links c.id).cast_timestamps ≡ []
    → InOrder 0 casts
    → (w : ℕ) → tally (in_second w) (limit_all c casts h) ≤ h.settings.max_casts_per_second
limit_all-second c casts h fresh o w = omega (
  arith,
  limit_all-bounded c casts h 0 h.settings.max_casts_per_second (λ v. 0) refl (λ v. omega arith)
      (λ v e. omega arith) o w,
)
