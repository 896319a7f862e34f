-- ===== src/Hub/Session/Reach.antt =====
-- server/hub.py: a session is made of the hub's steps.
use thchaos_backend.Prelude.{String, Bool, Option, none, some, List, [], ◌∷◌, All}
use thchaos_backend.Protocol.Errors.{ProtocolError, to_payload}
use thchaos_backend.Protocol.Payloads.{Payload}
use thchaos_backend.Protocol.Envelope.{Envelope}
use thchaos_backend.Protocol.Parse.{Parsed, ok, raised, str, parse_message}
use thchaos_backend.Connection.{Client}
use thchaos_backend.Hub.State.{
  RoomRuntime, Hub, Outcome, done, protocol, connection_error, store_closing, database_error,
  timeout_error, M, pure, ◌>>◌, modify, gets,
}
use thchaos_backend.Hub.Rooms.{send, send_error, drop_connection}
use thchaos_backend.Hub.Dispatch.{record_message, register}
use thchaos_backend.Hub.Actions.{
  Keeps, Keeps-pure, Keeps-modify, Keeps-bind, Keeps-then, Keeps-if, Keeps-observe, Keeps-catch,
  action_rules,
}
use thchaos_backend.Hub.Session.{
  Message, disconnect, binary, text, World, Handshake, Arrival, Greeting, gone, unwelcome, greeted,
  receive, send_server_state, add_connection, enter, Ending, waiting, left, cast_of, recover, flush,
  complain, answer, turn, converse, crash, settle, close_connection, leave, finish, attend,
  admitted, welcomed, handle,
}
use thchaos_backend.Hub.Current.{IsCurrent}
use thchaos_backend.Hub.Current.Reach.{
  Reaches-IsCurrent, Reaches, here, authenticated, registered, dispatched, expired, dropped,
  started, began, ended, stopped, took, gathered, wrote, sent, recorded, joined, aborted,
}

-- Steps one after the other.
pub Reaches-trans : {h k l : Hub} → Reaches h k → Reaches k l → Reaches h l
Reaches-trans r here = r
Reaches-trans r (authenticated path session e p s) =
    authenticated path session e p (Reaches-trans r s)
Reaches-trans r (registered c s) = registered c (Reaches-trans r s)
Reaches-trans r (dispatched fingerprint c e p now w before after s) =
    dispatched fingerprint c e p now w before after (Reaches-trans r s)
Reaches-trans r (expired now s) = expired now (Reaches-trans r s)
Reaches-trans r (dropped c s) = dropped c (Reaches-trans r s)
Reaches-trans r (started c s) = started c (Reaches-trans r s)
Reaches-trans r (began c now s) = began c now (Reaches-trans r s)
Reaches-trans r (ended o now s) = ended o now (Reaches-trans r s)
Reaches-trans r (stopped c s) = stopped c (Reaches-trans r s)
Reaches-trans r (took s) = took (Reaches-trans r s)
Reaches-trans r (gathered s) = gathered (Reaches-trans r s)
Reaches-trans r (wrote fails s) = wrote fails (Reaches-trans r s)
Reaches-trans r (sent c p i s) = sent c p i (Reaches-trans r s)
Reaches-trans r (recorded c e s) = recorded c e (Reaches-trans r s)
Reaches-trans r (joined c s) = joined c (Reaches-trans r s)
Reaches-trans r (aborted c s) = aborted c (Reaches-trans r s)

-- What other tasks do is steps of the hub.
abbrev pub IsSteps : (Hub → Hub) → Type 0
IsSteps f = (g : Hub) → Reaches g (f g)

pub record IsFair (w : World) : Type 0 where
  pub flushed : (c : Client) → IsSteps (λ g. (w.flush c g).1)
  pub ended : (c : Client) → IsSteps (w.ended c)

abbrev pub Arrives : Arrival → Type 0
Arrives a = IsSteps a.before × IsSteps a.wait.before × IsSteps a.wait.after

module _ (h : Hub) where
  others : (f : Hub → Hub) → IsSteps f → Keeps (Reaches h) (modify f)
  others f s = Keeps-modify f (λ g r. Reaches-trans r (s g))

  send-Steps : (c : Client) (p : Payload) (i : Option String) → Keeps (Reaches h) (send c p i none)
  send-Steps c p i = record { at = λ g r. sent c p i r }

  drop-Steps : (c : Client) → Keeps (Reaches h) (drop_connection c)
  drop-Steps c = record { at = λ g r. dropped c r }

  send_error-Steps :
      (c : Client) (e : ProtocolError) (a b : Option String)
      → Keeps (Reaches h) (send_error drop_connection (some c) e a b)
  unfolding send_error
  send_error-Steps c e a b =
      Keeps-catch (send c (Payload.error (to_payload e a b)) none none) (drop_connection c)
        (send-Steps c (Payload.error (to_payload e a b)) none) (drop-Steps c)

  send_server_state-Steps :
      (c : Client) (r : RoomRuntime) → Keeps (Reaches h) (send_server_state c r)
  unfolding send_server_state
  send_server_state-Steps c r = search (action_rules, Keeps-then, send-Steps)

  record_message-Steps : (c : Client) (e : Envelope) → Keeps (Reaches h) (record_message c e)
  record_message-Steps c e = record { at = λ g r. recorded c e r }

  register-Steps : (c : Client) → Keeps (Reaches h) (register c)
  register-Steps c = record { at = λ g r. registered c r }

  joined-Steps : (c : Client) → Keeps (Reaches h) (modify (add_connection c))
  joined-Steps c = record { at = λ g r. joined c r }

  enter-Steps : (c : Client) (t : String) (e : Envelope) → Keeps (Reaches h) (enter c t e)
  unfolding enter
  enter-Steps c t e =
      search
        (
          action_rules, send-Steps, send_server_state-Steps, record_message-Steps, register-Steps,
          joined-Steps,
        )
        depth 12

  recover-Steps :
      (handler : ProtocolError → M Bool) (o : Outcome (Unit {0})) (g : Hub)
      → ((e : ProtocolError) → Keeps (Reaches h) (handler e))
      → Reaches h g
      → Reaches h (recover handler o g).1
  recover-Steps handler (done a) g k r = r
  recover-Steps handler (protocol e) g k r = (k e).at g r
  recover-Steps handler connection_error g k r = r
  recover-Steps handler store_closing g k r = r
  recover-Steps handler database_error g k r = r
  recover-Steps handler timeout_error g k r = r

  module _ (w : World) (fair : IsFair w) where
    flush-Steps : (c : Client) → Keeps (Reaches h) (flush w c)
    unfolding flush
    flush-Steps c = record { at = λ g r. Reaches-trans r (fair.flushed c g) }

    complain-Steps :
        (c : Client) (a b : Option String) (e : ProtocolError)
        → Keeps (Reaches h) (complain w c a b e)
    unfolding complain
    complain-Steps c a b e = search (action_rules, send_error-Steps, flush-Steps) depth 9

    answer-Steps :
        (c : Client) (a : Arrival) (p : Parsed (Envelope × Payload))
        → Arrives a
        → Keeps (Reaches h) (answer w c a p)
    answer-Steps c a (raised e) s = record { at = λ g r. (complain-Steps c none none e).at g r }
    answer-Steps c a (ok (e, p)) (before, within, after) = record {
      at = λ g r.
          recover-Steps _ _ _ (complain-Steps c (some e.message_id) (cast_of p))
            (dispatched w.fingerprint c e p a.now a.wait within after r);
    }

    turn-Steps : (c : Client) (a : Arrival) → Arrives a → Keeps (Reaches h) (turn w c a)
    unfolding turn receive
    turn-Steps c a s = record { at = λ g r. at a.message g r }
      where
        at :
            (m : Message) (g : Hub)
            → Reaches h g
            → Reaches h (turn w c (record a { message = m }) g).1
        at disconnect g r = r
        at binary g r = (complain-Steps c none none _).at g r
        at (text t) g r =
            (answer-Steps c (record a { message = text t })
                (parse_message w.codec none g.settings.max_frame_bytes (str t)) s).at
              g r

    converse-Steps :
        (c : Client) (xs : List Arrival) → All Arrives xs → Keeps (Reaches h) (converse w c xs)
    unfolding converse
    converse-Steps c [] s = search action_rules
    converse-Steps c (a ∷ xs) (s, rest) =
        Keeps-bind (gets (λ g. (g.links c.id).is_closed)) _ (Keeps-observe _ _) (λ closed.
          Keeps-if closed (pure left) _ (Keeps-pure left) (
            Keeps-then (modify a.before) _ (others a.before s.0) (
              Keeps-bind (turn w c a) _ (turn-Steps c a s) (λ goes_on.
                Keeps-if goes_on (converse w c xs) (pure left) (converse-Steps c xs rest)
                  (Keeps-pure left)))))

    crash-Steps : (c : Client) → Keeps (Reaches h) (crash w c)
    unfolding crash
    crash-Steps c =
        Keeps-then (send_error drop_connection (some c) _ none none) _
          (send_error-Steps c _ none none)
          (Keeps-then (modify (λ g. (w.flush c g).1)) _
            (others (λ g. (w.flush c g).1) (fair.flushed c)) (Keeps-pure left))

    settle-Steps :
        (c : Client) (o : Outcome Ending) (g : Hub) → Reaches h g → Reaches h (settle w c o g).1
    settle-Steps c (done e) g r = r
    settle-Steps c (protocol e) g r =
        (Keeps-then (send_error drop_connection (some c) e none none) (flush w c >> pure left)
            (send_error-Steps c e none none)
            (Keeps-then (flush w c) (pure left) (flush-Steps c) (Keeps-pure left))).at
          g r
    settle-Steps c connection_error g r = (crash-Steps c).at g r
    settle-Steps c store_closing g r = (crash-Steps c).at g r
    settle-Steps c database_error g r = (crash-Steps c).at g r
    settle-Steps c timeout_error g r = (crash-Steps c).at g r

    close-Steps : (c : Client) → Keeps (Reaches h) (modify (close_connection w c))
    unfolding close_connection
    close-Steps c = record { at = λ g r. Reaches-trans (aborted c r) (fair.ended c _) }

    leave-Steps : (c : Client) → Keeps (Reaches h) (leave w c)
    unfolding leave
    leave-Steps c =
        Keeps-then (drop_connection c) (modify (close_connection w c)) (drop-Steps c)
          (close-Steps c)

    finish-Steps :
        (c : Client) (o : Outcome Ending) (g : Hub) → Reaches h g → Reaches h (finish w c o g).1
    finish-Steps c (done waiting) g r = r
    finish-Steps c (done left) g r = (leave-Steps c).at g r
    finish-Steps c (protocol e) g r = (leave-Steps c).at g r
    finish-Steps c connection_error g r = (leave-Steps c).at g r
    finish-Steps c store_closing g r = (leave-Steps c).at g r
    finish-Steps c database_error g r = (leave-Steps c).at g r
    finish-Steps c timeout_error g r = (leave-Steps c).at g r

    -- The session up to its `finally` block.
    pub settled-Steps :
        (c : Client) (t : String) (e : Envelope) (xs : List Arrival) (g : Hub)
        → All Arrives xs
        → Reaches h g
        → let out = (enter c t e >> converse w c xs) g in Reaches h (settle w c out.0 out.1).1
    settled-Steps c t e xs g s r = settle-Steps c _ _ (
        (Keeps-then (enter c t e) (converse w c xs) (enter-Steps c t e) (converse-Steps c xs s)).at
          g r)

    attend-Steps :
        (c : Client) (t : String) (e : Envelope) (xs : List Arrival)
        → All Arrives xs
        → Keeps (Reaches h) (attend w c t e xs)
    unfolding attend
    attend-Steps c t e xs s = record {
      at = λ g r. finish-Steps c _ _ (settled-Steps c t e xs g s r);
    }

    admitted-Steps :
        (k : Handshake) (e : Envelope) (xs : List Arrival) (o : Outcome Client) (g : Hub)
        → All Arrives xs
        → Reaches h g
        → Reaches h (admitted w k e xs o g).1
    admitted-Steps k e xs (done c) g s r = (attend-Steps c k.server_time e xs s).at g r
    admitted-Steps k e xs (protocol error) g s r = r
    admitted-Steps k e xs connection_error g s r = r
    admitted-Steps k e xs store_closing g s r = r
    admitted-Steps k e xs database_error g s r = r
    admitted-Steps k e xs timeout_error g s r = r

    welcomed-Steps :
        (k : Handshake) (xs : List Arrival) (o : Greeting) (g : Hub)
        → All Arrives xs
        → Reaches h g
        → Reaches h (welcomed w k xs o g).1
    welcomed-Steps k xs gone g s r = r
    welcomed-Steps k xs (unwelcome first e) g s r = r
    welcomed-Steps k xs (greeted e p) g s r =
        admitted-Steps k e xs _ _ s (authenticated k.path k.session e p r)

-- If what the other tasks do at each wait of a session is steps of the hub, then all that `handle`
-- does to the hub, for any sequence of messages and any errors, is steps of the hub.
pub handle-Reaches :
    (w : World) (k : Handshake) (arrivals : List Arrival) (h : Hub)
    → IsFair w
    → IsSteps k.before
    → All Arrives arrivals
    → Reaches h (handle w k arrivals h).1
unfolding handle
handle-Reaches w k arrivals h fair before s =
    welcomed-Steps h w fair k arrivals _ (k.before h) s (before h)

-- If a hub's audit store is open and each pending cast is of its room's game, generation and active
-- round, and what the other tasks do at each wait of a session is steps of the hub, then after any
-- part of the session the same holds.
handle-IsCurrent :
    (w : World) (k : Handshake) (arrivals : List Arrival) (h : Hub)
    → IsFair w
    → IsSteps k.before
    → All Arrives arrivals
    → IsCurrent h
    → IsCurrent (handle w k arrivals h).1
handle-IsCurrent w k arrivals h fair before s =
    Reaches-IsCurrent h _ (handle-Reaches w k arrivals h fair before s)
