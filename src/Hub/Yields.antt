-- ===== src/Hub/Yields.antt =====
-- Rules for actions whose value matters: `Yields P m Q E` where `m`, from a state with `P`, returns
-- a value and a state with `Q`, or raises in a state with `E`.
use thchaos_backend.Prelude.{Bool, true, false, ◌≡◌, refl}
use thchaos_backend.Protocol.Errors.{ProtocolError}
use thchaos_backend.Hub.State.{
  Hub, Outcome, done, protocol, connection_error, store_closing, database_error, timeout_error, M,
  pure, raise, continue, ◌>>=◌, ◌>>◌, modify, gets, guard,
}
use thchaos_backend.Hub.Actions.{Keeps}

abbrev pub Ended {ℓ} : {A : Type ℓ} → (A → Hub → Type 0) → (Hub → Type 0) → Outcome A → Hub → Type 0
Ended Q E (done a) h = Q a h
Ended Q E (protocol e) h = E h
Ended Q E connection_error h = E h
Ended Q E store_closing h = E h
Ended Q E database_error h = E h
Ended Q E timeout_error h = E h

pub record Yields {ℓ} {A : Type ℓ} (P : Hub → Type 0) (m : M A) (Q : A → Hub → Type 0)
    (E : Hub → Type 0) : Type ℓ where
  pub at : (h : Hub) → P h → Ended Q E (m h).0 (m h).1

pub Yields-pure {ℓ} :
    {A : Type ℓ} {P E : Hub → Type 0} {Q : A → Hub → Type 0} (a : A)
    → ((h : Hub) → P h → Q a h)
    → Yields P (pure a) Q E
Yields-pure a k = record { at = k }

pub Yields-raise {ℓ} :
    {A : Type ℓ} {P E : Hub → Type 0} {Q : A → Hub → Type 0} (e : ProtocolError)
    → ((h : Hub) → P h → E h)
    → Yields P (raise {A = A} e) Q E
Yields-raise e k = record { at = k }

continue-Yields {ℓ κ} :
    {A : Type ℓ} {B : Type κ} {Q : A → Hub → Type 0} {R : B → Hub → Type 0} {E : Hub → Type 0}
    (o : Outcome A) (k : A → M B) (h : Hub)
    → Ended Q E o h
    → ((a : A) → Yields (Q a) (k a) R E)
    → Ended R E (continue o k h).0 (continue o k h).1
continue-Yields (done a) k h p r = (r a).at h p
continue-Yields (protocol x) k h p r = p
continue-Yields connection_error k h p r = p
continue-Yields store_closing k h p r = p
continue-Yields database_error k h p r = p
continue-Yields timeout_error k h p r = p

pub Yields-bind {ℓ κ} :
    {A : Type ℓ} {B : Type κ} {P E : Hub → Type 0} {Q : A → Hub → Type 0} {R : B → Hub → Type 0}
    (m : M A) (k : A → M B)
    → Yields P m Q E
    → ((a : A) → Yields (Q a) (k a) R E)
    → Yields P (m >>= k) R E
Yields-bind {Q} m k r s = record {
  at = λ h p. continue-Yields {Q = Q} (m h).0 k (m h).1 (r.at h p) s;
}

pub Yields-modify {κ} :
    {B : Type κ} {P Q E : Hub → Type 0} {R : B → Hub → Type 0} (f : Hub → Hub) (k : M B)
    → ((h : Hub) → P h → Q (f h))
    → Yields Q k R E
    → Yields P (modify f >> k) R E
Yields-modify f k step r = record { at = λ h p. r.at (f h) (step h p) }

-- A test that the rest relies on.
pub Yields-guard {κ} :
    {B : Type κ} {P E : Hub → Type 0} {R : B → Hub → Type 0} (b : Bool) (e : ProtocolError)
    (k : M B)
    → ((h : Hub) → P h → E h)
    → (b ≡ true → Yields P k R E)
    → Yields P (guard b e >> k) R E
Yields-guard true e k fails r = r refl
Yields-guard false e k fails r = Yields-raise e fails

-- A reading of the state, which the rest knows to be of this state.
pub Yields-gets {κ} :
    {A : Type 0} {B : Type κ} {P E : Hub → Type 0} {R : B → Hub → Type 0} (f : Hub → A)
    (k : A → M B)
    → ((a : A) → Yields (λ h. P h × (f h ≡ a)) (k a) R E)
    → Yields P (gets f >>= k) R E
Yields-gets f k r = record { at = λ h p. (r (f h)).at h (p, refl) }

Ended-weaken {ℓ} :
    {A : Type ℓ} (E F : Hub → Type 0) (Q R : A → Hub → Type 0) (o : Outcome A) (h : Hub)
    → ((a : A) → Q a h → R a h)
    → (E h → F h)
    → Ended Q E o h
    → Ended R F o h
Ended-weaken E F Q R (done a) h q e x = q a x
Ended-weaken E F Q R (protocol x) h q e y = e y
Ended-weaken E F Q R connection_error h q e y = e y
Ended-weaken E F Q R store_closing h q e y = e y
Ended-weaken E F Q R database_error h q e y = e y
Ended-weaken E F Q R timeout_error h q e y = e y

Ended-all {ℓ} :
    {A : Type ℓ} (E : Hub → Type 0) (o : Outcome A) (h : Hub) → E h → Ended (λ a k. E k) E o h
Ended-all E (done a) h x = x
Ended-all E (protocol x) h y = y
Ended-all E connection_error h y = y
Ended-all E store_closing h y = y
Ended-all E database_error h y = y
Ended-all E timeout_error h y = y

Ended-end {ℓ} :
    {A : Type ℓ} (E : Hub → Type 0) (o : Outcome A) (h : Hub) → Ended (λ a k. E k) E o h → E h
Ended-end E (done a) h x = x
Ended-end E (protocol x) h y = y
Ended-end E connection_error h y = y
Ended-end E store_closing h y = y
Ended-end E database_error h y = y
Ended-end E timeout_error h y = y

pub Yields-weaken {ℓ} :
    {A : Type ℓ} {P E F : Hub → Type 0} {Q R : A → Hub → Type 0} (m : M A)
    → Yields P m Q E
    → ((a : A) (h : Hub) → Q a h → R a h)
    → ((h : Hub) → E h → F h)
    → Yields P m R F
Yields-weaken {Q = Q} {R = R} m r q e = record {
  at = λ h p. Ended-weaken _ _ Q R (m h).0 (m h).1 (λ a. q a (m h).1) (e (m h).1) (r.at h p);
}

pub Yields-of-Keeps {ℓ} :
    {A : Type ℓ} {P E : Hub → Type 0} (m : M A)
    → Keeps P m
    → ((h : Hub) → P h → E h)
    → Yields P m (λ a h. E h) E
Yields-of-Keeps m r w = record { at = λ h p. Ended-all _ (m h).0 (m h).1 (w _ (r.at h p)) }

pub Keeps-of-Yields {ℓ} :
    {A : Type ℓ} {P E : Hub → Type 0} (m : M A)
    → Yields P m (λ a h. E h) E
    → (h : Hub) → P h
    → E (m h).1
Keeps-of-Yields m r h p = Ended-end _ (m h).0 (m h).1 (r.at h p)
