-- ===== src/Hub/Lifetime/Close.antt =====
-- server/hub.py: `close` drops every connection.
use thchaos_backend.Prelude.{
  true, false, not, List, [], ◌∷◌, any, all, All, ◌≡◌, refl, arith, nat_eq, nat_beq_iff, inl, subst,
  sym,
}
use thchaos_backend.Connection.{Client, is_same}
use thchaos_backend.Hub.State.{Hub, done, for_each, room_at, update_room, update_link}
use thchaos_backend.Hub.Rooms.{drop_connection}
use thchaos_backend.Hub.Actions.{Keeps-for_each, Runs-for_each}
use thchaos_backend.Hub.Quiet.{Steady, drop-Keeps}
use thchaos_backend.Hub.Casts.Drop.{drop-Runs}
use thchaos_backend.Hub.Current.{Nowhere}
use thchaos_backend.Hub.Session.Leave.{
  anyhow, Gone, IsAbsent, Steady-Gone, drop-Gone, drop-done, all-keep,
}
use thchaos_backend.Hub.Lifetime.{drop_all}

-- The hub's connections are among those of a list.
abbrev Within : List Client → Hub → Type 0
Within cs h = all (λ d. any (λ c. is_same d c) cs) h.connections ≡ true

Steady-Within : (cs : List Client) → Steady (Within cs)
unfolding update_link update_room room_at
Steady-Within cs = record {
  quiet = record { linked = λ id f h x. x; stored = λ s h x. x; forgot = λ rid x h y. y };
  game_gone = λ rid h x. x;
  bot_gone = λ d h x. x;
  discarded =
      λ d h x. all-keep (λ e. any (λ c. is_same e c) cs) (λ e. not (is_same e d)) h.connections x;
}

-- A test that holds of one of a longer list.
widen_lem :
    (c : Client) (cs ds : List Client)
    → all (λ d. any (λ e. is_same d e) cs) ds ≡ true
    → all (λ d. any (λ e. is_same d e) (c ∷ cs)) ds ≡ true
widen_lem c cs [] w = refl
widen_lem c cs (d ∷ ds) w = ground (arith, widen_lem c cs ds)

Within-self : (cs : List Client) → all (λ d. any (λ c. is_same d c) cs) cs ≡ true
Within-self [] = refl
Within-self (c ∷ cs) = rw (widen_lem c cs cs (Within-self cs), (nat_beq_iff c.id c.id).1 refl) refl

drop_all-Within : (cs ds : List Client) (h : Hub) → Within ds h → Within ds (drop_all cs h).1
drop_all-Within cs ds h x =
    (Keeps-for_each cs drop_connection (λ c. drop-Keeps (Steady-Within ds) 2 c)).at h x

drop_all-Gone :
    (cs : List Client) (h : Hub)
    → h.store.is_closing ≡ false
    → All (λ c. Gone c (drop_all cs h).1) cs
unfolding for_each room_at
drop_all-Gone [] h e = tt
drop_all-Gone (c ∷ cs) h e =
    let ran = drop-done c h e in
    let (_, kept) =
      (drop-Runs anyhow 2 Nowhere c).at h
        (record { open_store = e; casts = λ rid x p found. inl tt }) in
    let next : drop_all (c ∷ cs) h ≡ drop_all cs (drop_connection c h).1 = rw ran refl in
    subst (λ out. All (λ d. Gone d out.1) (c ∷ cs)) (sym next)
      (
        (Keeps-for_each cs drop_connection (λ d. drop-Keeps (Steady-Gone c) 2 d)).at _
            (drop-Gone 1 c h),
        drop_all-Gone cs (drop_connection c h).1 kept.open_store,
      )

absent_lem :
    (d : Client) (cs ds : List Client)
    → All (λ c. IsAbsent c (d ∷ ds)) cs
    → any (λ c. is_same d c) cs ≡ false
absent_lem d [] ds a = refl
absent_lem d (c ∷ cs) ds (a, b) = ground (arith, absent_lem d cs ds b)

none_left :
    (cs ds : List Client)
    → all (λ d. any (λ c. is_same d c) cs) ds ≡ true
    → All (λ c. IsAbsent c ds) cs
    → ds ≡ []
none_left cs [] w a = refl
none_left cs (d ∷ ds) w a = absurd (ground (arith, absent_lem d cs ds a))

-- If the audit store is open, then dropping all connections of the hub, as `close` does, returns
-- without an exception and leaves no connection.
pub drop_all-connections :
    (h : Hub)
    → h.store.is_closing ≡ false
    → ((drop_all h.connections h).0 ≡ done tt) × ((drop_all h.connections h).1.connections ≡ [])
unfolding room_at
drop_all-connections h e = (
  ((Runs-for_each h.connections drop_connection (λ c. drop-Runs anyhow 2 Nowhere c)).at h
      (record { open_store = e; casts = λ rid x p found. inl tt })).0,
  none_left h.connections (drop_all h.connections h).1.connections
      (drop_all-Within h.connections h.connections h (Within-self h.connections))
      (drop_all-Gone h.connections h e),
)
