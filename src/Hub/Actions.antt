-- ===== src/Hub/Actions.antt =====
-- Rules for the actions of Hub/State: `Runs P m Q` where `m` returns from every state with `P`, in
-- a state with `Q`; `Keeps P m` where `m` leaves `P` standing, whether it returns or raises.
use thchaos_backend.Prelude.{
  String, Bool, true, false, List, [], ◌∷◌, ◌≡◌, refl, arith, eq_iff, ◌==◌, string_eq,
  if◌then◌else◌,
}
use thchaos_backend.Prelude.Dict.{lookup, lookup-insert}
use thchaos_backend.Protocol.Errors.{ProtocolError}
use thchaos_backend.Hub.State.{
  RoomRuntime, Hub, Outcome, done, protocol, connection_error, store_closing, database_error,
  timeout_error, M, pure, raise, continue, rescue, ◌>>=◌, ◌>>◌, catch, modify, gets, guard,
  for_each, room_at, set_room, update_room, or_new,
}

pub record Runs (P : Hub → Type 0) (m : M (Unit {0})) (Q : Hub → Type 0) : Type 0 where
  pub at : (h : Hub) → P h → ((m h).0 ≡ done tt) × Q (m h).1

pub record Keeps {ℓ} {A : Type ℓ} (P : Hub → Type 0) (m : M A) : Type ℓ where
  pub at : (h : Hub) → P h → P (m h).1

pub Runs-pure : {P : Hub → Type 0} → Runs P (pure tt) P
Runs-pure = record { at = λ h p. (refl, p) }

pub Runs-modify :
    {P Q : Hub → Type 0} (f : Hub → Hub) → ((h : Hub) → P h → Q (f h)) → Runs P (modify f) Q
Runs-modify f k = record { at = λ h p. (refl, k h p) }

continue-Runs :
    {Q R : Hub → Type 0} {k : M (Unit {0})} (o : Outcome (Unit {0})) (h : Hub)
    → o ≡ done tt
    → Q h
    → Runs Q k R
    → ((continue o (λ _. k) h).0 ≡ done tt) × R (continue o (λ _. k) h).1
continue-Runs (done tt) h e q r = r.at h q
continue-Runs (protocol x) h e q r = absurd (cc)
continue-Runs connection_error h e q r = absurd (cc)
continue-Runs store_closing h e q r = absurd (cc)
continue-Runs database_error h e q r = absurd (cc)
continue-Runs timeout_error h e q r = absurd (cc)

pub Runs-then :
    {P Q R : Hub → Type 0} (m k : M (Unit {0})) → Runs P m Q → Runs Q k R → Runs P (m >> k) R
Runs-then m k r s = record { at = λ h p. continue-Runs (m h).0 (m h).1 (r.at h p).0 (r.at h p).1 s }

pub Runs-weaken :
    {P Q R : Hub → Type 0} (m : M (Unit {0})) → Runs P m Q → ((h : Hub) → Q h → R h) → Runs P m R
Runs-weaken m r w = record { at = λ h p. ((r.at h p).0, w _ (r.at h p).1) }

pub Runs-gets {ℓ} :
    {A : Type ℓ} {P Q : Hub → Type 0} (f : Hub → A) (k : A → M (Unit {0}))
    → ((h : Hub) → P h → ((k (f h) h).0 ≡ done tt) × Q (k (f h) h).1)
    → Runs P (gets f >>= k) Q
Runs-gets f k r = record { at = r }

pub Runs-for_each {ℓ} :
    {A : Type ℓ} {P : Hub → Type 0} (xs : List A) (body : A → M (Unit {0}))
    → ((x : A) → Runs P (body x) P)
    → Runs P (for_each xs body) P
unfolding for_each
Runs-for_each [] body r = Runs-pure
Runs-for_each (x ∷ xs) body r =
    Runs-then (body x) (for_each xs body) (r x) (Runs-for_each xs body r)

pub Keeps-of-Runs : {P : Hub → Type 0} {m : M (Unit {0})} → Runs P m P → Keeps P m
Keeps-of-Runs r = record { at = λ h p. (r.at h p).1 }

pub Keeps-pure {ℓ} : {A : Type ℓ} {P : Hub → Type 0} (a : A) → Keeps P (pure a)
Keeps-pure a = record { at = λ h p. p }

pub Keeps-raise {ℓ} :
    {A : Type ℓ} {P : Hub → Type 0} (e : ProtocolError) → Keeps P (raise {A = A} e)
Keeps-raise e = record { at = λ h p. p }

pub Keeps-guard : {P : Hub → Type 0} (b : Bool) (e : ProtocolError) → Keeps P (guard b e)
Keeps-guard true e = Keeps-pure tt
Keeps-guard false e = Keeps-raise e

pub Keeps-modify :
    {P : Hub → Type 0} (f : Hub → Hub) → ((h : Hub) → P h → P (f h)) → Keeps P (modify f)
Keeps-modify f k = record { at = k }

continue-Keeps {ℓ κ} :
    {A : Type ℓ} {B : Type κ} {P : Hub → Type 0} (o : Outcome A) (k : A → M B) (h : Hub)
    → P h
    → ((a : A) → Keeps P (k a))
    → P (continue o k h).1
continue-Keeps (done a) k h p r = (r a).at h p
continue-Keeps (protocol x) k h p r = p
continue-Keeps connection_error k h p r = p
continue-Keeps store_closing k h p r = p
continue-Keeps database_error k h p r = p
continue-Keeps timeout_error k h p r = p

pub Keeps-bind {ℓ κ} :
    {A : Type ℓ} {B : Type κ} {P : Hub → Type 0} (m : M A) (k : A → M B)
    → Keeps P m
    → ((a : A) → Keeps P (k a))
    → Keeps P (m >>= k)
Keeps-bind m k r s = record { at = λ h p. continue-Keeps (m h).0 k (m h).1 (r.at h p) s }

pub Keeps-gets {ℓ κ} :
    {A : Type ℓ} {B : Type κ} {P : Hub → Type 0} (f : Hub → A) (k : A → M B)
    → ((h : Hub) → P h → P (k (f h) h).1)
    → Keeps P (gets f >>= k)
Keeps-gets f k r = record { at = r }

-- Where the rest needs the guard's test.
pub Keeps-guarded {κ} :
    {B : Type κ} {P : Hub → Type 0} (b : Bool) (e : ProtocolError) (k : M B)
    → (b ≡ true → Keeps P k)
    → Keeps P (guard b e >> k)
Keeps-guarded true e k r = r refl
Keeps-guarded false e k r = Keeps-raise e

pub Keeps-if {κ} :
    {B : Type κ} {P : Hub → Type 0} (b : Bool) (m k : M B)
    → Keeps P m
    → Keeps P k
    → Keeps P (if b then m else k)
Keeps-if true m k r s = r
Keeps-if false m k r s = s

-- The state after a change of one room, room by room.
pub room_at-update_room :
    (rid k : String) (f : RoomRuntime → RoomRuntime) (h : Hub)
    → room_at (update_room rid f h) k ≡ (if rid == k then f (room_at h rid) else room_at h k)
unfolding room_at update_room set_room
room_at-update_room rid k f h =
    rw (lookup-insert rid k (f (or_new rid (lookup rid h.rooms))) h.rooms)
      (ground (arith, eq_iff rid k))

pub Keeps-then {κ} :
    {B : Type κ} {P : Hub → Type 0} (m : M (Unit {0})) (k : M B)
    → Keeps P m
    → Keeps P k
    → Keeps P (m >> k)
Keeps-then m k r s = Keeps-bind m (λ _. k) r (λ _. s)

-- Rules for two properties of the states between two actions.
pub Keeps-through {κ} :
    {B : Type κ} {P Q : Hub → Type 0} (f : Hub → Hub) (k : M B)
    → ((h : Hub) → P h → Q (f h))
    → Keeps Q k
    → ((h : Hub) → Q h → P h)
    → Keeps P (modify f >> k)
Keeps-through f k enter r back = record { at = λ h p. back _ (r.at (f h) (enter h p)) }

rescue-Keeps :
    {P : Hub → Type 0} (o : Outcome (Unit {0})) (k : M (Unit {0})) (h : Hub)
    → P h
    → Keeps P k
    → P (rescue o k h).1
rescue-Keeps connection_error k h p r = r.at h p
rescue-Keeps (done a) k h p r = p
rescue-Keeps (protocol x) k h p r = p
rescue-Keeps store_closing k h p r = p
rescue-Keeps database_error k h p r = p
rescue-Keeps timeout_error k h p r = p

pub Keeps-catch :
    {P : Hub → Type 0} (m k : M (Unit {0})) → Keeps P m → Keeps P k → Keeps P (catch m k)
Keeps-catch m k r s = record { at = λ h p. rescue-Keeps (m h).0 k (m h).1 (r.at h p) s }

pub Keeps-for_each {ℓ} :
    {A : Type ℓ} {P : Hub → Type 0} (xs : List A) (body : A → M (Unit {0}))
    → ((x : A) → Keeps P (body x))
    → Keeps P (for_each xs body)
unfolding for_each
Keeps-for_each [] body r = Keeps-pure tt
Keeps-for_each (x ∷ xs) body r =
    Keeps-then (body x) (for_each xs body) (r x) (Keeps-for_each xs body r)

pub Keeps-observe {ℓ} : {A : Type ℓ} (P : Hub → Type 0) (f : Hub → A) → Keeps P (gets f)
Keeps-observe P f = record { at = λ h p. p }

pub ruleset action_rules =
    (Keeps-pure, Keeps-raise, Keeps-guard, Keeps-bind, Keeps-if, Keeps-observe)
