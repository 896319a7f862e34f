-- ===== src/Hub/Fuel/Examples.antt =====
-- A test of the fuel of `_drop`: a game leaves while a cast of a Bot is pending.
use thchaos_backend.Prelude.{
  subst, ◌==◌, string_eq, Bool-cases, inl, inr, ◌∷◌, String, none, some, [], ◌≡◌, refl,
}
use thchaos_backend.Prelude.Dict.{lookup, insert, keys}
use thchaos_backend.Protocol.Payloads.{role_value}
use thchaos_backend.Protocol.Envelope.{message_type_value}
use thchaos_backend.Storage.{
  open_store, conflicts, enqueue, event_row, has_conflict, record_event, record_vote,
}
use thchaos_backend.Connection
use thchaos_backend.Connection.{Client, PendingCast, CastHooks, new_link, is_client}
use thchaos_backend.Hub.State.{room_at, room, update_link, for_each, set_room, update_room}
use thchaos_backend.Hub.Rooms.{drop, resolve_all, broadcast, send}
use thchaos_backend.Hub.Game.{handle_sync, handle_game, answer_game, game_message}
use thchaos_backend.Hub.Bot.{
  bot_message, finish_cast, forward, handle_bot, handle_cast, rate_limit, recent, reserve_vote,
  start_cast,
}
use thchaos_backend.Hub.Dispatch.{
  admit, register, dispatch, find_message, process, model_dump, record_message, remember,
}
use thchaos_backend.Hub.Examples.{the_bot, the_game, voted, first_cast}
use thchaos_backend.Hub.Fuel.Enough.{IsFrom, InRoom, drop_enough}

the_room :
    ((room_at voted "main").bots ≡ the_bot ∷ [])
    × ((room_at voted "main").pending_casts ≡ ("c1", first_cast) ∷ [])
unfolding room_at lookup dispatch admit register room find_message update_link insert process
    handle_game answer_game game_message handle_sync resolve_all for_each Connection.send
    bot_message finish_cast forward handle_bot handle_cast rate_limit recent reserve_vote start_cast
    model_dump record_message remember broadcast send set_room update_room keys message_type_value
    role_value conflicts enqueue event_row has_conflict record_event record_vote open_store
the_room = (refl, refl)

the_cast :
    (x : String) (p : PendingCast) → lookup x (("c1", first_cast) ∷ []) ≡ some p → IsFrom "main" p
unfolding lookup
the_cast x p e = elim (Bool-cases ("c1" == x)) [
  | inl found ↦
      let f : some first_cast ≡ some p = rw found at e in
      let same : first_cast ≡ p = cc in subst (IsFrom "main") same first_IsFrom
  | inr missing ↦ let f : none ≡ some p = rw missing at e in absurd (cc)
]
  where
    first_IsFrom : IsFrom "main" first_cast
    first_IsFrom c o = let same : the_bot ≡ c = cc in subst (λ d. d.room_id ≡ "main") same refl

voted-InRoom : InRoom "main" (room_at voted "main")
voted-InRoom = rw (the_room.0, the_room.1) ((refl, tt), the_cast)

drop_enough_example : drop 2 the_game voted ≡ drop 7 the_game voted
drop_enough_example = drop_enough 0 5 the_game voted voted-InRoom
