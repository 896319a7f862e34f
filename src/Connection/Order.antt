-- ===== src/Connection/Order.antt =====
-- server/connection.py: messages leave a connection in the order in which they were queued.
use thchaos_backend.Prelude.{
  String, Option, List, [], ◌∷◌, ◌++◌, length, ltb, leb, ◌&&◌, if◌then◌else◌, ◌≡◌, refl, Bool-cases,
  inl, inr, subst, ap, ◌∙◌,
}
use thchaos_backend.Protocol.Payloads.{Payload}
use thchaos_backend.Protocol.Envelope.{Frame, make_envelope}
use thchaos_backend.Connection.{
  Client, CastHooks, Outbound, Link, or_own, abort, send, take_item, make_frame, shut,
}
use thchaos_backend.Connection.Sending.{
  LinkStep, sending, framing, passing, aborting, shutting, link_step, link_steps, framed, passed,
}

-- What a frame carries of the item that it is made of.
abbrev pub Content : Type 0
Content = Payload × Option String

abbrev pub frame_content : List Frame → List Content
frame_content [] = []
frame_content (f ∷ fs) = (f.payload, f.game_instance_id) ∷ frame_content fs

abbrev pub item_content : List Outbound → List Content
item_content [] = []
item_content (i ∷ is) = (i.payload, i.instance_id) ∷ item_content is

-- The first list is the second with some of its entries left out.
pub data Subsequence : List Content → List Content → Type 0 where
  empty : {ys : List Content} → Subsequence [] ys
  keep_one :
      {xs ys : List Content} (x : Content) → Subsequence xs ys → Subsequence (x ∷ xs) (x ∷ ys)
  skip_one : {xs ys : List Content} (y : Content) → Subsequence xs ys → Subsequence xs (y ∷ ys)

-- The messages of the calls of `send` that do not raise.
abbrev pub taken : Client → LinkStep → Link → List Content
taken c (sending p i k) l = if (send c p i k l).0 then (p, or_own i c.game_instance_id) ∷ [] else []
taken c _ l = []

abbrev pub all_taken : Client → List LinkStep → Link → List Content
all_taken c [] l = []
all_taken c (x ∷ xs) l = taken c x l ++ all_taken c xs (link_step c x l).1

skip_all : (xs ys zs : List Content) → Subsequence xs zs → Subsequence xs (ys ++ zs)
skip_all xs [] zs s = s
skip_all xs (y ∷ ys) zs s = skip_one y (skip_all xs ys zs s)

item_content-append :
    (xs ys : List Outbound) → item_content (xs ++ ys) ≡ item_content xs ++ item_content ys
item_content-append [] ys = refl
item_content-append (x ∷ xs) ys = rw (item_content-append xs ys) refl

append_nil : (xs : List Content) → xs ≡ xs ++ []
append_nil [] = refl
append_nil (x ∷ xs) = ap (λ ys. x ∷ ys) (append_nil xs)

append_assoc : (xs ys zs : List Content) → (xs ++ ys) ++ zs ≡ xs ++ (ys ++ zs)
append_assoc [] ys zs = refl
append_assoc (x ∷ xs) ys zs = rw (append_assoc xs ys zs) refl

frame_content-append :
    (xs ys : List Frame) → frame_content (xs ++ ys) ≡ frame_content xs ++ frame_content ys
frame_content-append [] ys = refl
frame_content-append (x ∷ xs) ys = rw (frame_content-append xs ys) refl

-- A call of `send` adds what it takes to the end of the queue.
send-content :
    (c : Client) (p : Payload) (i : Option String) (k : Option CastHooks) (l : Link)
    → item_content (send c p i k l).1.queue ≡ item_content l.queue ++ taken c (sending p i k) l
unfolding send abort
send-content c p i k l = elim (Bool-cases l.is_closed) [
  | inl closed ↦ rw closed (append_nil (item_content l.queue))
  | inr is_open ↦ elim (Bool-cases (ltb 0 c.queue_limit && leb c.queue_limit (length l.queue))) [
    | inl full ↦ rw (is_open, full) (append_nil (item_content l.queue))
    | inr room ↦ rw (is_open, room) (item_content-append l.queue _)
  ]
]

framed-content :
    (c : Client) (l : Link) (queue : List Outbound) (frames : List Frame) (rest : List Content)
    → let m : Link = record l { queue = queue } in
      Subsequence (frame_content frames) (item_content (framed c m (take_item m)).1.queue ++ rest)
      → Subsequence
          (frame_content ((framed c m (take_item m)).0 ++ frames))
          (item_content queue ++ rest)
unfolding take_item make_frame make_envelope
framed-content c l [] frames rest s = s
framed-content c l (i ∷ items) frames rest s = keep_one (i.payload, i.instance_id) s

passed-content :
    (l : Link) (queue : List Outbound) (frames : List Frame) (rest : List Content)
    → let m : Link = record l { queue = queue } in
      Subsequence (frame_content frames) (item_content (passed m (take_item m)).queue ++ rest)
      → Subsequence (frame_content frames) (item_content queue ++ rest)
unfolding take_item
passed-content l [] frames rest s = s
passed-content l (i ∷ items) frames rest s = skip_one (i.payload, i.instance_id) s

-- One step: what it sends, then what a later part sends of what it leaves and of `rest`.
link_step-content :
    (c : Client) (x : LinkStep) (l : Link) (frames : List Frame) (rest : List Content)
    → Subsequence (frame_content frames) (item_content (link_step c x l).1.queue ++ rest)
    → Subsequence
        (frame_content ((link_step c x l).0 ++ frames))
        (item_content l.queue ++ (taken c x l ++ rest))
unfolding link_step take_item make_frame make_envelope abort shut
link_step-content c (sending p i k) l frames rest s =
    subst (Subsequence (frame_content frames))
      (ap (λ xs. xs ++ rest) (send-content c p i k l)
        ∙ append_assoc (item_content l.queue) (taken c (sending p i k) l) rest)
      s
link_step-content c framing l frames rest s = framed-content c l l.queue frames rest s
link_step-content c passing l frames rest s = passed-content l l.queue frames rest s
link_step-content c aborting l frames rest s = s
link_step-content c shutting l frames rest s =
    skip_all (frame_content frames) (item_content l.queue) rest s

-- Whatever happens to a connection, the frames that it sends carry, in their order, messages that
-- were in its queue or that a call of `send` has taken since, each once at most.
pub link_steps-Subsequence :
    (c : Client) (xs : List LinkStep) (l : Link)
    → Subsequence (frame_content (link_steps c xs l).0) (item_content l.queue ++ all_taken c xs l)
unfolding link_steps
link_steps-Subsequence c [] l = empty
link_steps-Subsequence c (x ∷ xs) l =
    link_step-content c x l (link_steps c xs (link_step c x l).1).0
      (all_taken c xs (link_step c x l).1) (link_steps-Subsequence c xs (link_step c x l).1)
