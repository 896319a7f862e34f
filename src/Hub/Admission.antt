-- ===== src/Hub/Admission.antt =====
-- What `_dispatch` checks before a message is handled: its sequence number.
use thchaos_backend.Prelude.{
  ℕ, ◌+◌, not, ◌||◌, [], ◌∷◌, ◌++◌, ◌==◌, nat_eq, string_eq, option_eq, ◌≡◌, refl, arith,
  Bool-cases, inl, inr, ◌≢◌,
}
use thchaos_backend.Protocol.Errors.{
  protocol_origin_mismatch, protocol_already_authenticated, plain_error,
}
use thchaos_backend.Protocol.Payloads.{Payload}
use thchaos_backend.Protocol.Envelope.{Envelope}
use thchaos_backend.Connection.{Client, Link}
use thchaos_backend.Hub.State.{Hub, done, pure, ◌>>◌, modify, guard, update_link}
use thchaos_backend.Hub.Bot.{recent, rate_limit}
use thchaos_backend.Hub.Dispatch.{admit, limit_casts, is_hello, is_game_role}
use thchaos_backend.Hub.Actions.{Keeps, Keeps-pure, Keeps-modify, Keeps-if, action_rules}

-- The last number of a connection.
abbrev Numbered : ℕ → ℕ → Hub → Type 0
Numbered id n h = (h.links id).inbound_seq ≡ n

Numbered-link :
    (id n : ℕ) (f : Link → Link) (h : Hub)
    → ((l : Link) → (f l).inbound_seq ≡ l.inbound_seq)
    → Numbered id n h
    → Numbered id n (update_link id f h)
unfolding update_link
Numbered-link id n f h same e = ground (arith, same (h.links id))

linked-seq :
    (id : ℕ) (f : Link → Link) (h : Hub)
    → ((update_link id f h).links id).inbound_seq ≡ (f (h.links id)).inbound_seq
unfolding update_link
linked-seq id f h = ground arith

pruned-Keeps :
    (id n now : ℕ)
    → Keeps
        (Numbered id n)
        (modify (update_link id (λ l. record l { cast_timestamps = recent now l.cast_timestamps })))
pruned-Keeps id n now = Keeps-modify _ (λ h e. Numbered-link id n _ h (λ l. refl) e)

pushed-Keeps :
    (id n now : ℕ)
    → Keeps (Numbered id n) (
        modify (update_link id (λ l. record l { cast_timestamps = l.cast_timestamps ++ now ∷ [] })))
pushed-Keeps id n now = Keeps-modify _ (λ h e. Numbered-link id n _ h (λ l. refl) e)

limit_casts-Numbered :
    (c : Client) (p : Payload) (now n : ℕ) → Keeps (Numbered c.id n) (limit_casts c p now)
unfolding rate_limit
limit_casts-Numbered c (Payload.vote_cast p) now n =
    Keeps-if (is_game_role c.role) (pure tt) (rate_limit c p now) (Keeps-pure tt)
      (search (action_rules, pruned-Keeps, pushed-Keeps))
limit_casts-Numbered c _ now n = Keeps-pure tt

-- `_dispatch` goes on with a message only if its number follows the connection's last one, and then
-- the message's number is the connection's last one; with another number nothing is changed.
pub admit-seq :
    (c : Client) (e : Envelope) (p : Payload) (now : ℕ) (h : Hub)
    → (((admit c e p now h).0 ≡ done tt)
        → (e.seq ≡ (h.links c.id).inbound_seq + 1)
          × (((admit c e p now h).1.links c.id).inbound_seq ≡ e.seq))
      × (e.seq ≢ (h.links c.id).inbound_seq + 1 → (admit c e p now h).1 ≡ h)
unfolding admit
admit-seq c e p now h = elim (Bool-cases (e.room_id == c.room_id)) [
  | inr other ↦ rw other ((λ d. absurd (cc)), λ n. refl)
  | inl same ↦ elim (Bool-cases (e.seq == (h.links c.id).inbound_seq + 1)) [
    | inr skipped ↦ rw (same, skipped) ((λ d. absurd (cc)), λ n. refl)
    | inl next ↦ (
      (λ d. (ground arith, rw (same, next) (rest.at (taken e h) (taken-Numbered e h)))),
      λ n. absurd (ground arith),
    )
  ]
]
  where
    taken : Envelope → Hub → Hub
    taken e h = update_link c.id (λ l. record l { inbound_seq = e.seq }) h

    taken-Numbered : (e : Envelope) (h : Hub) → Numbered c.id e.seq (taken e h)
    taken-Numbered e h = linked-seq c.id (λ l. record l { inbound_seq = e.seq }) h

    rest : Keeps (Numbered c.id e.seq) (do
      guard (not (is_hello e.message_type)) (plain_error protocol_already_authenticated "连接已认证")
      guard
          (not (is_game_role c.role) || e.game_instance_id == c.game_instance_id)
          (plain_error protocol_origin_mismatch "game_instance_id 与连接不一致")
      limit_casts c p now)
    rest = search (action_rules, limit_casts-Numbered)
