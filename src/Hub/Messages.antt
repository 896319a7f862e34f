-- ===== src/Hub/Messages.antt =====
-- The cache of handled messages: it stays within its bound and holds what was put in last.
use thchaos_backend.Prelude.{
  ◌≤◌, String, true, false, not, some, List, [], ◌∷◌, ◌++◌, drop, keep, length, ltb, ◌≡◌, refl,
  arith, All, length-append, length-keep-le, Bool-cases, inl, inr, string_eq, eq_refl,
}
use thchaos_backend.Hub.State.{MessageKey}
use thchaos_backend.Hub.Dispatch.{same_key, find_message, remember}

abbrev IsOther : MessageKey → MessageKey × String → Type 0
IsOther k m = same_key m.0 k ≡ false

kept-IsOther :
    (k : MessageKey) (ms : List (MessageKey × String))
    → All (IsOther k) (keep (λ m. not (same_key m.0 k)) ms)
kept-IsOther k [] = tt
kept-IsOther k (m ∷ ms) = elim (Bool-cases (same_key m.0 k)) [
  | inl same ↦ rw same (kept-IsOther k ms)
  | inr other ↦ rw other (other, kept-IsOther k ms)
]

dropped_short :
    (ms : List (MessageKey × String)) (m : MessageKey × String)
    → length ms ≤ 4096
    → length (drop 1 (ms ++ m ∷ [])) ≤ 4096
dropped_short [] m short = omega arith
dropped_short (x ∷ ms) m short = omega (arith, length-append ms (m ∷ []))

same_key_refl : (k : MessageKey) → same_key k k ≡ true
same_key_refl k = ground (arith, eq_refl k.role, eq_refl k.instance_id, eq_refl k.message_id)

find_last :
    (k : MessageKey) (digest : String) (ms : List (MessageKey × String))
    → All (IsOther k) ms
    → find_message k (ms ++ (k, digest) ∷ []) ≡ some digest
unfolding find_message
find_last k digest [] o = rw (same_key_refl k) refl
find_last k digest ((j, old) ∷ ms) (other, o) = rw other (find_last k digest ms o)

find_dropped :
    (k : MessageKey) (digest : String) (ms : List (MessageKey × String))
    → All (IsOther k) ms
    → ltb 4096 (length (ms ++ (k, digest) ∷ [])) ≡ true
    → find_message k (drop 1 (ms ++ (k, digest) ∷ [])) ≡ some digest
find_dropped k digest [] o long = absurd (ground arith)
find_dropped k digest (m ∷ ms) (other, o) long = find_last k digest ms o

-- If the cache holds at most 4096 messages, then so it does after a message has been put in, and
-- the message is found with its digest.
pub remember-find_message :
    (k : MessageKey) (digest : String) (ms : List (MessageKey × String))
    → length ms ≤ 4096
    → (length (remember k digest ms) ≤ 4096) × (find_message k (remember k digest ms) ≡ some digest)
unfolding remember
remember-find_message k digest ms short =
    let kept = keep (λ m. not (same_key m.0 k)) ms in
    let few : length kept ≤ 4096 = omega (arith, length-keep-le (λ m. not (same_key m.0 k)) ms) in
    let o : All (IsOther k) kept = kept-IsOther k ms in
    elim (Bool-cases (ltb 4096 (length (kept ++ (k, digest) ∷ [])))) [
      | inl long ↦ rw long (dropped_short kept (k, digest) few, find_dropped k digest kept o long)
      | inr fits ↦ rw fits (ground arith, find_last k digest kept o)
    ]
