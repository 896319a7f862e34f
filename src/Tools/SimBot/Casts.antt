-- ===== src/Tools/SimBot/Casts.antt =====
-- tools/sim_bot.py: the votes that the simulated Bot sends.
use thchaos_backend.Prelude.{
  ℕ, ◌+◌, String, true, Option, none, some, List, [], ◌∷◌, string_eq, ◌≡◌, refl, arith, All,
  All-append, length, subst,
}
use thchaos_backend.Protocol.Types.{is_choice, validate_voter_id}
use thchaos_backend.Protocol.Payloads.{Payload, VoteCastPayload}
use thchaos_backend.Protocol.Envelope.{Frame, make_envelope}
use thchaos_backend.Tools.SimBot.{
  Bot, Watch, Input, message, line, on_receive, read_choice, cast, on_input, casts,
}
use thchaos_backend.Tools.SimGame.Order.{Numbered, Numbered-append}

-- A vote with a choice from 1 to 3 and a voter that the protocol accepts, for a game instance.
abbrev pub IsVote : Frame → Type 0
IsVote f =
    (p : VoteCastPayload) × (f.payload ≡ Payload.vote_cast p)
    × (is_choice p.choice ≡ true)
    × (validate_voter_id p.voter_id ≡ true)
    × ((instance_id : String) × (f.game_instance_id ≡ some instance_id))

read_choice-is_choice : (s : String) (n : ℕ) → read_choice s ≡ some n → is_choice n ≡ true
unfolding read_choice
read_choice-is_choice s n e = ground arith

-- What one input leads to: no frame, or one vote with the next number.
on_input-cases :
    (b : Bot) (i : Input) (s : Watch)
    → All IsVote (on_input b i s).0
      × Numbered (s.seq + 1) (on_input b i s).0
      × ((on_input b i s).1.seq ≡ s.seq + length (on_input b i s).0)
unfolding on_input on_receive cast make_envelope validate_voter_id
on_input-cases b (message instance_id (Payload.vote_opened p)) s = (tt, tt, omega arith)
on_input-cases b (message instance_id (Payload.vote_closed p)) s = (tt, tt, omega arith)
on_input-cases b (message instance_id _) s = (tt, tt, omega arith)
on_input-cases b (line choice cast_id message_id) s =
    at (read_choice choice) s.active_instance s.active_round refl
  where
    at :
        (o : Option ℕ) (i : Option String) (r : Option ℕ)
        → read_choice choice ≡ o
        → let out : List Frame × Watch = cast b cast_id message_id o i r s in
          All IsVote out.0 × Numbered (s.seq + 1) out.0 × (out.1.seq ≡ s.seq + length out.0)
    at (some n) (some j) (some round) e =
        (((_, refl, read_choice-is_choice choice n e, refl, (j, refl)), tt), (refl, tt), refl)
    at none i r e = (tt, tt, omega arith)
    at (some n) none r e = (tt, tt, omega arith)
    at (some n) (some j) none e = (tt, tt, omega arith)

-- Whatever messages and lines come in whatever order, each frame that the simulated Bot sends is a
-- vote with a choice from 1 to 3, a voter that the protocol accepts and a game instance, and the
-- frames have the numbers after the last one before them, without a gap.
pub casts-IsVote :
    (b : Bot) (inputs : List Input) (s : Watch)
    → All IsVote (casts b inputs s) × Numbered (s.seq + 1) (casts b inputs s)
unfolding casts
casts-IsVote b [] s = (tt, tt)
casts-IsVote b (i ∷ inputs) s =
    let out = on_input b i s in
    let (v, n, e) = on_input-cases b i s in
    let (w, m) = casts-IsVote b inputs out.1 in
    (
      All-append IsVote out.0 (casts b inputs out.1) v w,
      Numbered-append (s.seq + 1) out.0 (casts b inputs out.1) n
          (subst (λ k. Numbered k (casts b inputs out.1)) (omega (arith, e)) m),
    )
