-- ===== src/Connection/Sending.antt =====
-- The bound of a connection's send queue, and the numbers of its frames.
use thchaos_backend.Prelude.{
  ℕ, ◌+◌, ◌≤◌, ◌<◌, String, Option, none, some, List, [], ◌∷◌, ◌++◌, length, ◌≡◌, arith,
  length-append,
}
use thchaos_backend.Protocol.Payloads.{Payload}
use thchaos_backend.Protocol.Envelope.{Frame}
use thchaos_backend.Connection.{
  Client, CastHooks, Outbound, Link, or_own, abort, send, take_item, make_frame, shut,
}

-- What can happen to a connection's changing part.
pub data LinkStep : Type 0 where
  sending : Payload → Option String → Option CastHooks → LinkStep
  framing passing aborting shutting : LinkStep

abbrev pub framed : Client → Link → Option (Outbound × Link) → List Frame × Link
framed c l none = ([], l)
framed c l (some (item, m)) = ((make_frame c item m).0 ∷ [], (make_frame c item m).1)

abbrev pub passed : Link → Option (Outbound × Link) → Link
passed l none = l
passed l (some (item, m)) = m

-- A step, with the frames that it begins to send: an item sent, or passed over.
unfoldable pub link_step : Client → LinkStep → Link → List Frame × Link
link_step c (sending p i k) l = ([], (send c p i k l).1)
link_step c framing l = framed c l (take_item l)
link_step c passing l = ([], passed l (take_item l))
link_step c aborting l = ([], abort l)
link_step c shutting l = ([], shut l)

unfoldable pub link_steps : Client → List LinkStep → Link → List Frame × Link
link_steps c [] l = ([], l)
link_steps c (x ∷ xs) l =
    let (frames, m) = link_step c x l in let (rest, n) = link_steps c xs m in (frames ++ rest, n)

-- `queue_limit` bounds the queue.
abbrev pub IsWithin : Client → Link → Type 0
IsWithin c l = length l.queue ≤ c.queue_limit

send-IsWithin :
    (c : Client) (p : Payload) (i : Option String) (k : Option CastHooks) (l : Link)
    → 0 < c.queue_limit
    → IsWithin c l
    → IsWithin c (send c p i k l).1
unfolding send abort
send-IsWithin c p i k l some_room h = ground (
  arith,
  length-append l.queue
      (record { payload = p; instance_id = or_own i c.game_instance_id; hooks = k } ∷ []),
)

link_step-IsWithin :
    (c : Client) (x : LinkStep) (l : Link)
    → 0 < c.queue_limit
    → IsWithin c l
    → IsWithin c (link_step c x l).1
unfolding link_step take_item make_frame abort shut
link_step-IsWithin c (sending p i k) l some_room h = send-IsWithin c p i k l some_room h
link_step-IsWithin c framing l some_room h = ground arith
link_step-IsWithin c passing l some_room h = ground arith
link_step-IsWithin c aborting l some_room h = h
link_step-IsWithin c shutting l some_room h = ground arith

-- If a connection has a limit other than 0 and a send queue within it, then whatever happens to the
-- connection its send queue stays within the limit.
pub link_steps-IsWithin :
    (c : Client) (xs : List LinkStep) (l : Link)
    → 0 < c.queue_limit
    → IsWithin c l
    → IsWithin c (link_steps c xs l).1
unfolding link_steps
link_steps-IsWithin c [] l some_room h = h
link_steps-IsWithin c (x ∷ xs) l some_room h =
    link_steps-IsWithin c xs _ some_room (link_step-IsWithin c x l some_room h)

-- The frames are numbered one by one from `n + 1` on.
abbrev pub IsNumbered : ℕ → List Frame → Type 0
IsNumbered n [] = Unit {0}
IsNumbered n (f ∷ fs) = (f.seq ≡ n + 1) × IsNumbered (n + 1) fs
