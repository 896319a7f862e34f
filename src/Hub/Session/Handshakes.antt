-- ===== src/Hub/Session/Handshakes.antt =====
-- server/hub.py: which handshakes lead to a session.
use thchaos_backend.Prelude.{
  String, Bool, true, false, ◌&&◌, Option, none, some, List, ◌≡◌, refl, arith, ◌==◌, string_eq,
  option_eq, nat_eq, if◌then◌else◌, Bool-cases, inl, inr, ◌⊎◌, eq_iff, same_option_iff, ℕ,
  nat_beq_iff,
}
use thchaos_backend.Protocol.Errors.{
  ProtocolError, plain_error, auth_invalid_token, protocol_origin_mismatch, auth_role_mismatch,
  protocol_seq_regression,
}
use thchaos_backend.Protocol.Payloads.{Payload, HelloPayload, role_value}
use thchaos_backend.Protocol.Envelope.{Envelope, MessageType, Frame}
use thchaos_backend.Protocol.Parse.{Parsed, ok, raised, Codec, str, parse_message}
use thchaos_backend.Config.{Settings, token_room}
use thchaos_backend.Hub.State.{Hub, protocol}
use thchaos_backend.Hub.Rooms.{text_append}
use thchaos_backend.Hub.Dispatch.{authenticate, is_hello}
use thchaos_backend.Hub.Session.{
  Message, disconnect, binary, text, World, Handshake, Arrival, Greeting, gone, unwelcome, greeted,
  hello_payload, greet_hello, greet_parsed, greet, receive, refusal, turned_away, welcomed, handle,
}

-- A hello that names what its token and its path allow.
abbrev pub IsAuthentic : Settings → String → Envelope → HelloPayload → Type 0
IsAuthentic s path e p =
    (token_room s p.token (role_value p.role) ≡ some p.room_id)
    × (e.room_id ≡ p.room_id)
    × (e.game_instance_id ≡ p.game_instance_id)
    × (path ≡ text_append "/ws/" (role_value p.role))

-- The tests of the handshake after the one of the token.
unfoldable origin_test : Settings → Envelope → HelloPayload → Bool
origin_test s e p =
    token_room s p.token (role_value p.role) == some p.room_id
    && e.room_id == p.room_id
    && e.game_instance_id == p.game_instance_id

origin_test_sound :
    (s : Settings) (e : Envelope) (p : HelloPayload)
    → origin_test s e p ≡ true
    → (token_room s p.token (role_value p.role) ≡ some p.room_id)
      × (e.room_id ≡ p.room_id)
      × (e.game_instance_id ≡ p.game_instance_id)
unfolding origin_test
origin_test_sound s e p t = (
  (same_option_iff string_eq (token_room s p.token (role_value p.role)) (some p.room_id)).0
      (ground arith),
  (eq_iff e.room_id p.room_id).0 (ground arith),
  (same_option_iff string_eq e.game_instance_id p.game_instance_id).0 (ground arith),
)

authenticate-cases :
    (path session : String) (e : Envelope) (p : HelloPayload) (h : Hub)
    → ((error : ProtocolError) × (authenticate path session e p h ≡ (protocol error, h)))
      ⊎ IsAuthentic h.settings path e p
unfolding authenticate origin_test
authenticate-cases path session e p h =
    elim (Bool-cases (token_room h.settings p.token (role_value p.role) == none)) [
      | inl unknown ↦ inl (plain_error auth_invalid_token "Token 无效", rw unknown refl)
      | inr known ↦ elim (Bool-cases (origin_test h.settings e p)) [
        | inr foreign ↦
            inl (plain_error protocol_origin_mismatch "握手身份不一致", rw (known, foreign) refl)
        | inl own ↦ elim (Bool-cases (path == text_append "/ws/" (role_value p.role))) [
          | inr elsewhere ↦
              inl (plain_error auth_role_mismatch "连接路径与角色不一致", rw (known, own, elsewhere) refl)
          | inl here ↦
              let (a, b, c) = origin_test_sound h.settings e p own in
              inr (a, b, c, (eq_iff path (text_append "/ws/" (role_value p.role))).0 here)
        ]
      ]
    ]

-- A first message that is a hello.
abbrev pub IsHello : Codec → ℕ → Option Message → Envelope → HelloPayload → Type 0
IsHello codec limit first e p =
    (s : String) × (first ≡ some (text s))
    × (parse_message codec none limit (str s) ≡ ok (e, Payload.hello p))
    × (e.message_type ≡ MessageType.hello)
    × (e.seq ≡ 1)

is_hello-eq : (t : MessageType) → is_hello t ≡ true → t ≡ MessageType.hello
is_hello-eq MessageType.hello e = refl
is_hello-eq _ e = absurd (cc)

hello_payload-eq : (x : Payload) (p : HelloPayload) → hello_payload x ≡ some p → x ≡ Payload.hello p
hello_payload-eq (Payload.hello q) p e = cc
hello_payload-eq _ p e = absurd (cc)

greet_hello_sound :
    (e e' : Envelope) (o : Option HelloPayload) (p : HelloPayload)
    → greet_hello e o ≡ greeted e' p
    → (e ≡ e') × (o ≡ some p) × (e.seq ≡ 1)
greet_hello_sound e e' none p g = absurd (cc)
greet_hello_sound e e' (some q) p g = elim (Bool-cases (e.seq == 1)) [
  | inl first ↦
      let same : greeted e q ≡ greeted e' p = rw first at g in
      (cc, cc, (nat_beq_iff e.seq 1).0 first)
  | inr late ↦
      let error : ProtocolError = plain_error protocol_seq_regression "hello 的 seq 必须为 1" in
      let refused : unwelcome (some e) error ≡ greeted e' p = rw late at g in absurd (cc)
]

greet_parsed_sound :
    (r : Parsed (Envelope × Payload)) (e : Envelope) (p : HelloPayload)
    → greet_parsed r ≡ greeted e p
    → (r ≡ ok (e, Payload.hello p)) × (e.message_type ≡ MessageType.hello) × (e.seq ≡ 1)
greet_parsed_sound (raised x) e p g = absurd (cc)
greet_parsed_sound (ok (e', x)) e p g = at (is_hello e'.message_type) refl g
  where
    at :
        (b : Bool)
        → is_hello e'.message_type ≡ b
        → greet_hello e' (if b then hello_payload x else none) ≡ greeted e p
        → (◌≡◌ {A = Parsed (Envelope × Payload)} (ok (e', x)) (ok (e, Payload.hello p)))
          × (e.message_type ≡ MessageType.hello)
          × (e.seq ≡ 1)
    at true hello greets =
        let (same, payload, first) = greet_hello_sound e' e (hello_payload x) p greets in
        let is_p : x ≡ Payload.hello p = hello_payload-eq x p payload in
        let is_type : e'.message_type ≡ MessageType.hello = is_hello-eq e'.message_type hello in
        (cc, cc, cc)
    at false other greets = absurd (cc)

greet_sound :
    (codec : Codec) (limit : ℕ) (first : Option Message) (e : Envelope) (p : HelloPayload)
    → greet codec limit first ≡ greeted e p
    → IsHello codec limit first e p
unfolding greet receive
greet_sound codec limit none e p g = absurd (cc)
greet_sound codec limit (some disconnect) e p g = absurd (cc)
greet_sound codec limit (some binary) e p g = absurd (cc)
greet_sound codec limit (some (text s)) e p g =
    let (parsed, hello, first) =
      greet_parsed_sound (parse_message codec none limit (str s)) e p g in
    (s, refl, parsed, hello, first)

-- `handle` turns a WebSocket away and leaves the hub as it is, or its first message is a text that
-- parses to a hello with the number 1, whose token is that of its role and room, whose envelope
-- has that room and the hello's game instance, and whose path is that of its role.
pub handle-IsAuthentic :
    (w : World) (k : Handshake) (arrivals : List Arrival) (h : Hub)
    → ((frame : Option Frame) × (handle w k arrivals h ≡ (turned_away frame, k.before h)))
      ⊎ ((e : Envelope) × (p : HelloPayload) × IsHello w.codec
            (k.before h).settings.max_frame_bytes
            k.first
            e
            p
          × IsAuthentic (k.before h).settings k.path e p)
unfolding handle
handle-IsAuthentic w k arrivals h =
    at (greet w.codec (k.before h).settings.max_frame_bytes k.first) refl
  where
    at :
        (o : Greeting)
        → greet w.codec (k.before h).settings.max_frame_bytes k.first ≡ o
        → ((frame : Option Frame) × (welcomed w k arrivals o (k.before h)
              ≡ (turned_away frame, k.before h)))
          ⊎ ((e : Envelope) × (p : HelloPayload) × IsHello w.codec
                (k.before h).settings.max_frame_bytes
                k.first
                e
                p
              × IsAuthentic (k.before h).settings k.path e p)
    at gone g = inl (none, refl)
    at (unwelcome first error) g = inl (some (refusal first error), refl)
    at (greeted e p) g = elim (authenticate-cases k.path k.session e p (k.before h)) [
      | inl (error, refused) ↦ inl (some (refusal (some e) error), rw refused refl)
      | inr authentic ↦
          inr (
            e,
            p,
            greet_sound w.codec (k.before h).settings.max_frame_bytes k.first e p g,
            authentic,
          )
    ]
