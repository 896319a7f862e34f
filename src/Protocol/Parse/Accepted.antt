-- ===== src/Protocol/Parse/Accepted.antt =====
-- What `parse_message` has checked of a message that it returns.
use Prim.Native.String.{len}
use thchaos_backend.Prelude.{
  ℕ, String, Bool, true, false, not, Option, ◌≡◌, arith, leb, ◌≤◌, refl, subst, ap, ◌∙◌,
}
use thchaos_backend.Protocol.Errors.{ProtocolError}
use thchaos_backend.Protocol.Payloads.{ClientRole, Payload}
use thchaos_backend.Protocol.Envelope.{Envelope, get}
use thchaos_backend.Protocol.Parse.{
  validated, Parsed, ok, raised, Validation, valid, invalid, Codec, Raw, decode_raw, as_object,
  is_other_version, is_unknown_type, may_send, parse_message, ◌>>=◌, guard, or_raise,
}

bind_ok {ℓ κ} :
    {A : Type ℓ} {B : Type κ} (m : Parsed A) (f : A → Parsed B) (b : B)
    → (m >>= f) ≡ ok b
    → (a : A) × (m ≡ ok a) × (f a ≡ ok b)
bind_ok (ok a) f b e = (a, cc, e)
bind_ok (raised x) f b e = absurd (cc)

guard_ok : (b : Bool) (error : ProtocolError) → guard b error ≡ ok tt → b ≡ true
guard_ok true error e = refl
guard_ok false error e = absurd (cc)

validated_ok {ℓ} :
    {A : Type ℓ} (message : String) (v : Validation A) (a : A)
    → validated message v ≡ ok a
    → v ≡ valid a
validated_ok message (valid b) a e = cc
validated_ok message (invalid kinds) a e = absurd (cc)

abbrev accepted : Envelope → Payload → Parsed (Envelope × Payload)
accepted x y = ok (x, y)

ok_pair : (x a : Envelope) (y b : Payload) → accepted x y ≡ accepted a b → (x ≡ a) × (y ≡ b)
ok_pair x a y b e = (cc, cc)

-- If a message is accepted, then its text is the decoded frame, has at most `limit` bytes in UTF-8 and
-- is an envelope with a type that the role may send and a payload that is valid for that type.
pub parse_message-ok :
    (c : Codec) (role : Option ClientRole) (limit : ℕ) (raw : Raw) (envelope : Envelope)
    (payload : Payload)
    → parse_message c role limit raw ≡ ok (envelope, payload)
    → (s : String) × (decode_raw c limit raw ≡ ok s)
      × (len s ≤ limit)
      × (c.validate_envelope s ≡ valid envelope)
      × (may_send role envelope.message_type ≡ true)
      × (c.validate_payload envelope.message_type envelope.payload ≡ valid payload)
unfolding parse_message
parse_message-ok c role limit raw envelope payload e =
    let (s, decoded, e1) = bind_ok (decode_raw c limit raw) _ _ e in
    let (u1, small, e2) = bind_ok (guard (leb (len s) limit) _) _ _ e1 in
    let (json, loaded, e3) = bind_ok (or_raise (c.loads s) _) _ _ e2 in
    let (members, is_object, e4) = bind_ok (or_raise (as_object json) _) _ _ e3 in
    let (u2, version, e5) =
      bind_ok (guard (not (is_other_version (get "version" members))) _) _ _ e4 in
    let (u3, known, e6) = bind_ok (guard (not (is_unknown_type (get "type" members))) _) _ _ e5 in
    let (x, outer, e7) = bind_ok (validated _ (c.validate_envelope s)) _ _ e6 in
    let (u4, allowed, e8) = bind_ok (guard (may_send role x.message_type) _) _ _ e7 in
    let (y, inner, e9) =
      bind_ok (validated _ (c.validate_payload x.message_type x.payload)) _ _ e8 in
    let (same, same_payload) = ok_pair x envelope y payload e9 in
    (
      s,
      decoded,
      leb_le (guard_ok (leb (len s) limit) _ small),
      validated_ok _ _ _ outer ∙ ap valid same,
      subst (λ z. may_send role z.message_type ≡ true) same
          (guard_ok (may_send role x.message_type) _ allowed),
      subst (λ z. c.validate_payload z.message_type z.payload ≡ valid payload) same
          (validated_ok _ _ _ inner ∙ ap valid same_payload),
    )
  where
    leb_le : {n m : ℕ} → leb n m ≡ true → n ≤ m
    leb_le e = ground arith
