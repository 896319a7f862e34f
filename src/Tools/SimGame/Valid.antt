-- ===== src/Tools/SimGame/Valid.antt =====
-- tools/sim_game.py: the payloads that the simulated game sends, against the models of the protocol.
use Prim.Native.Char.{Char, code}
use thchaos_backend.Prelude.{
  ℕ, ◌+◌, ◌≤◌, ◌<◌, String, Bool, true, false, Option, none, some, List, [], ◌∷◌, length, all, All,
  All-append, codes, ltb, ◌==◌, nat_eq, string_eq, if◌then◌else◌, ◌≡◌, refl, arith, nat_beq_iff,
  Bool-cases, inl, inr,
}
use thchaos_backend.Prelude.Dict.{Dict, lookup}
use thchaos_backend.Protocol.Types.{is_digit, validate_command_id}
use thchaos_backend.Protocol.Decimal.{
  print_number, digits-print_digits, validate_command_id-print_number,
}
use thchaos_backend.Protocol.Payloads.{Payload, VoteCastPayload}
use thchaos_backend.Protocol.Schema.Texts.{
  is_event_key, is_key_body, is_key_tail, is_short_text, is_short_identifier, is_client_version,
  is_text, any_char,
}
use thchaos_backend.Protocol.Schema.{
  check_count, check_snapshot, check_closed, check_effect, check_ack, check_cast, check_payload,
  check_hello, check_sync, check_state, check_opened, check_option,
}
use thchaos_backend.Protocol.Validators.{
  validate_status, validate_choices, validate_totals, validate_outcome, sum_votes, all_distinct,
}
use thchaos_backend.Protocol.Envelope.{Frame, make_envelope}
use thchaos_backend.Tools.SimGame.Counting.{
  Counted, IsPolite, on_message-three, on_message-Counted, listen-three, listen-Counted,
}
use thchaos_backend.Tools.SimGame.{
  Game, Play, vote_count, vote_counts, event_key, make_message, opened, opening, first_play, count,
  answer, snapshot, on_cast, on_message, listen, max3, hits, verdict, closed, effect, effects,
  digit, digits_text, closing, run,
}

-- Three voters at most.
abbrev Few : Dict ℕ → Type 0
Few votes = length votes ≤ 3

count_1-valid : (votes : Dict ℕ) → count 1 votes ≤ 3 → check_count (vote_count votes 1) ≡ true
unfolding check_count is_event_key is_key_body is_key_tail is_short_text
count_1-valid votes e = ground arith

count_2-valid : (votes : Dict ℕ) → count 2 votes ≤ 3 → check_count (vote_count votes 2) ≡ true
unfolding check_count is_event_key is_key_body is_key_tail is_short_text
count_2-valid votes e = ground arith

count_3-valid : (votes : Dict ℕ) → count 3 votes ≤ 3 → check_count (vote_count votes 3) ≡ true
unfolding check_count is_event_key is_key_body is_key_tail is_short_text
count_3-valid votes e = ground arith

vote_counts-valid :
    (votes : Dict ℕ) → Counted votes → Few votes → all check_count (vote_counts votes) ≡ true
vote_counts-valid votes e few =
    rw
      (
        count_1-valid votes (omega (arith, e)),
        count_2-valid votes (omega (arith, e)),
        count_3-valid votes (omega (arith, e)),
      )
      refl

snapshot-valid :
    (votes : Dict ℕ) → Counted votes → Few votes → check_snapshot (snapshot votes) ≡ true
unfolding check_snapshot validate_totals snapshot sum_votes
snapshot-valid votes e few = ground (arith, vote_counts-valid votes e few)

closed-valid : (votes : Dict ℕ) → Counted votes → Few votes → check_closed (closed votes) ≡ true
unfolding check_closed validate_outcome closed sum_votes verdict all_distinct
closed-valid votes e few = ground (arith, vote_counts-valid votes e few)

-- The code of one of two characters, by a test of the code.
pick :
    (c k : ℕ) (x y : Char)
    → code x ≡ k
    → ((c == k) ≡ false → code y ≡ c)
    → code (if c == k then x else y) ≡ c
pick c k x y hx hy = elim (Bool-cases (c == k)) [
  | inl e ↦ rw e (omega (arith, hx, (nat_beq_iff c k).0 e))
  | inr e ↦ rw e (hy e)
]

digit-code : (c : ℕ) → is_digit c ≡ true → code (digit c) ≡ c
unfolding digit
digit-code c e = pick c 48 "0" _ refl (λ n0. pick c 49 "1" _ refl (λ n1. pick c 50 "2" _ refl (λ n2.
    pick c 51 "3" _ refl (λ n3. pick c 52 "4" _ refl (λ n4. pick c 53 "5" _ refl (λ n5.
      pick c 54 "6" _ refl
        (λ n6. pick c 55 "7" _ refl (λ n7. pick c 56 "8" _ refl (λ n8. ground arith)))))))))

codes-digits_text : (cs : List ℕ) → all is_digit cs ≡ true → codes (digits_text cs) ≡ cs
unfolding digits_text
codes-digits_text [] e = refl
codes-digits_text (c ∷ cs) e =
    rw (digit-code c (ground arith), codes-digits_text cs (ground arith)) refl

keyed : (choice : ℕ) → is_event_key (event_key choice) ≡ true
unfolding is_event_key is_key_body is_key_tail
keyed choice = elim (Bool-cases (choice == 1)) [
  | inl a ↦ rw a refl
  | inr a ↦ elim (Bool-cases (choice == 2)) [ inl b ↦ rw (a, b) refl | inr b ↦ rw (a, b) refl ]
]

effect-valid : (choice : ℕ) → choice ≤ 3 → check_effect (effect choice) ≡ true
unfolding check_effect is_short_text
effect-valid choice e =
    let id : validate_command_id (codes (digits_text (print_number (6217451873653358592 + choice))))
        ≡ true =
      rw
        (codes-digits_text (print_number (6217451873653358592 + choice))
          (digits-print_digits 19 (6217451873653358592 + choice) (omega arith)))
        (validate_command_id-print_number (6217451873653358592 + choice) (omega arith)
          (omega arith)).0 in
    rw (id, keyed choice) (ground arith)

-- The winning choices are from 1 to 3.
verdict-choices : (a b c : ℕ) → All (λ choice. choice ≤ 3) (verdict a b c).winner_choices
unfolding verdict
verdict-choices a b c = elim (Bool-cases (max3 a b c == 0)) [
  | inl e ↦ rw e (omega arith, tt)
  | inr e ↦ elim (Bool-cases (ltb 1 (hits (max3 a b c) a b c))) [
    | inl f ↦ rw (e, f) (omega arith, (omega arith, (omega arith, tt)))
    | inr f ↦ rw (e, f) (ground arith, tt)
  ]
]

on_message-Few :
    (g : Game) (p : Payload) (s : Play) → length s.votes < 3 → Few (on_message g p s).2.votes
on_message-Few g p s few = elim (on_message-three g p s few) [
  | inl (stops, three) ↦ omega arith
  | inr (goes_on, fewer) ↦ omega arith
]

module _ (is_uuid4 : String → Bool) where
  abbrev pub ValidFrames : List Frame → Type 0
  ValidFrames = All (λ f. check_payload is_uuid4 f.payload ≡ true)

  -- A cast satisfies its model.
  abbrev pub IsProper : Payload → Type 0
  IsProper (Payload.vote_cast p) = check_cast is_uuid4 p ≡ true
  IsProper _ = Unit

  IsProper-IsPolite : (p : Payload) → IsProper p → IsPolite p
  unfolding check_cast
  IsProper-IsPolite (Payload.vote_cast p) c = ground arith
  IsProper-IsPolite _ c = tt

  All-IsPolite : (messages : List Payload) → All IsProper messages → All IsPolite messages
  All-IsPolite [] c = tt
  All-IsPolite (p ∷ messages) (c, cs) = (IsProper-IsPolite p c, All-IsPolite messages cs)

  answer-valid :
      (o : Option ℕ) (p : VoteCastPayload)
      → check_cast is_uuid4 p ≡ true
      → check_ack is_uuid4 (answer o p) ≡ true
  unfolding check_cast check_ack answer validate_status
  answer-valid none p c = ground arith
  answer-valid (some n) p c = ground arith

  on_message-valid :
      (g : Game) (p : Payload) (s : Play)
      → IsProper p
      → Counted s.votes
      → length s.votes < 3
      → ValidFrames (on_message g p s).0
  unfolding on_message on_cast make_message make_envelope check_payload
  on_message-valid g (Payload.vote_cast p) s c e few =
      let later =
        on_message-Counted g (Payload.vote_cast p) s (IsProper-IsPolite (Payload.vote_cast p) c)
          e in
      let most = on_message-Few g (Payload.vote_cast p) s few in
      (answer-valid (lookup p.voter_id s.votes) p c, (snapshot-valid _ later most, tt))
  on_message-valid g _ s c e few = tt

  listen-valid :
      (g : Game) (messages : List Payload) (s : Play)
      → All IsProper messages
      → Counted s.votes
      → length s.votes < 3
      → ValidFrames (listen g messages s).0
  unfolding listen
  listen-valid g [] s c e few = tt
  listen-valid g (p ∷ messages) s (c, cs) e few =
      let v = on_message-valid g p s c e few in
      elim (on_message-three g p s few) [
        | inl (stops, three) ↦ rw stops v
        | inr (goes_on, few') ↦
            let d = on_message-Counted g p s (IsProper-IsPolite p c) e in
            rw goes_on (
              All-append _ (on_message g p s).0 _ v
                (listen-valid g messages (on_message g p s).2 cs d few'))
      ]

  effects-valid :
      (g : Game) (seq : ℕ) (choices : List ℕ)
      → All (λ choice. choice ≤ 3) choices
      → ValidFrames (effects g seq choices)
  unfolding check_payload effects make_message make_envelope
  effects-valid g seq [] c = tt
  effects-valid g seq (choice ∷ choices) (c, cs) =
      (effect-valid choice c, effects-valid g (seq + 1) choices cs)

  closing-valid : (g : Game) (s : Play) → Counted s.votes → Few s.votes → ValidFrames (closing g s)
  unfolding closing check_payload closed make_message make_envelope
  closing-valid g s e few = (
    closed-valid s.votes e few,
    effects-valid g (s.seq + 1) _
        (verdict-choices (count 1 s.votes) (count 2 s.votes) (count 3 s.votes)),
  )

  opening-valid :
      (g : Game)
      → is_short_identifier g.room ≡ true
      → is_short_identifier g.instance_id ≡ true
      → is_text 1 256 any_char g.token ≡ true
      → ValidFrames (opening g)
  unfolding opening opened make_message make_envelope check_payload check_hello check_sync
      check_state check_opened check_option validate_choices is_short_identifier is_client_version
      is_short_text is_event_key is_key_body is_key_tail
  opening-valid g room instance token = (rw (room, instance, token) refl, (refl, (refl, tt)))

-- If the room and the instance of the simulated game are identifiers, its token has from 1 to 256
-- characters, and every cast among the messages that it receives satisfies its model, then the
-- payload of every frame that it sends satisfies the model of its type: the constraints on all
-- fields and the model's validator.
pub run-IsValid :
    (is_uuid4 : String → Bool) (g : Game) (messages : List Payload)
    → is_short_identifier g.room ≡ true
    → is_short_identifier g.instance_id ≡ true
    → is_text 1 256 any_char g.token ≡ true
    → All (IsProper is_uuid4) messages
    → All (λ f. check_payload is_uuid4 f.payload ≡ true) (run g messages)
unfolding run count
run-IsValid is_uuid4 g messages room instance token proper =
    let polite = All-IsPolite is_uuid4 messages proper in
    let v = listen-valid is_uuid4 g messages first_play proper refl (omega arith) in
    All-append _ (opening g) _ (opening-valid is_uuid4 g room instance token) (
      All-append _ (listen g messages first_play).0 _ v
        (ended _ refl (listen-Counted g messages first_play polite refl)))
  where
    ended :
        (b : Bool)
        → (listen g messages first_play).1 ≡ b
        → Counted (listen g messages first_play).2.votes
        → ValidFrames is_uuid4 (if b then closing g (listen g messages first_play).2 else [])
    ended true e k =
        closing-valid is_uuid4 g _ k
          (omega (arith, listen-three g messages first_play (omega arith) e))
    ended false e k = tt
