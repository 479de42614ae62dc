-- ===== src/Wayland/Transport/Examples.antt =====
-- Tests and examples for the messages and round trips of internal/wl/wl.go.
use perfuncted.Prelude.{
  ℕ, ◌≡◌, ◌≢◌, ◌-◌, refl, true, false, some, drop, length, [], ◌∷◌, ◌++◌, arith,
}
use perfuncted.Prelude.Text.{codes}
use perfuncted.Wayland.Globals.{GlobalEvent, global}
use perfuncted.Wayland.Wire.RoundTrip.{IsGlobal}
use perfuncted.Wayland.Wire.{
  Bytes, trim_right, decoded, registry_dispatch, uint32, bind_message, sync_message,
}
use perfuncted.Wayland.Objects.{Objects, lookup, next_free, register, unregister}
use perfuncted.Wayland.Transport.{
  Message, Handler, message, bad_size, read_body, read_header, read_message, synced, dispatch_read,
  deliver, dispatch, pump, finish, begin_sync, round_trip,
}
use perfuncted.Wayland.Transport.Frames.{frame, IsMessage, read_message-bind_message}
use perfuncted.Wayland.Transport.Sync.{frames, round_trip-synced}

-- Handlers that leave the registry alone.
abbrev quiet : Handler
quiet p opcode body o = o

abbrev registry : Objects
registry = record { objects = (2, 7) ∷ []; next_id = 2 }

abbrev after_register : Objects
after_register = record { objects = (3, 9) ∷ (2, 7) ∷ []; next_id = 3 }

registered : register 9 registry ≡ some (3, after_register)
unfolding register next_free
registered = refl

abbrev removal : Message
removal = record { sender = 2; opcode = 1; body = 4 ∷ 0 ∷ 0 ∷ 0 ∷ [] }

abbrev done_event : Message
done_event = record { sender = 3; opcode = 0; body = 1 ∷ 0 ∷ 0 ∷ 0 ∷ [] }

synced_once :
    round_trip quiet 9 true (frames (removal ∷ []) (frame done_event ++ 5 ∷ [])) registry
    ≡ some (sync_message 3, synced (unregister 3 9 after_register) (5 ∷ []))
unfolding round_trip begin_sync finish register next_free pump dispatch dispatch_read deliver
    read_message read_header read_body uint32
synced_once = refl

odd_size : read_message (2 ∷ 0 ∷ 0 ∷ 0 ∷ 0 ∷ 0 ∷ 10 ∷ 0 ∷ 1 ∷ 2 ∷ []) ≡ bad_size 10
unfolding read_message read_header read_body uint32
odd_size = refl

abbrev shm : GlobalEvent
shm = record { name = 4; interface = codes "wl_shm"; version = 1 }

shm-IsGlobal : IsGlobal shm
unfolding trim_right
shm-IsGlobal = record {
  name_fits = omega arith;
  version_fits = omega arith;
  has_version = omega arith;
  interface_fits = omega arith;
  no_nul = refl;
}

read_message-bind_message_example :
    (body : Bytes) × (read_message (bind_message 2 shm.name shm.interface shm.version 5 ++ 6 ∷ [])
      ≡ message (record { sender = 2; opcode = 0; body = body }) (6 ∷ []))
    × (registry_dispatch true false 0 body ≡ decoded (global shm))
    × (uint32 (drop (length body - 4) body) ≡ some 5)
read_message-bind_message_example =
    read_message-bind_message 2 5 shm false (6 ∷ []) (omega arith) (omega arith) shm-IsGlobal
      (omega arith)

removal-IsMessage : IsMessage removal
removal-IsMessage = record {
  sender_fits = omega arith;
  opcode_fits = omega arith;
  aligned = omega arith;
  body_fits = omega arith;
}

done_event-IsMessage : IsMessage done_event
done_event-IsMessage = record {
  sender_fits = omega arith;
  opcode_fits = omega arith;
  aligned = omega arith;
  body_fits = omega arith;
}

not_nine : (j : ℕ) → lookup j registry.objects ≢ some 9
not_nine j h = ground (arith, h)

round_trip-synced_example :
    (o' : Objects) × (round_trip quiet 9 true
        (frames (removal ∷ []) (frame done_event ++ 5 ∷ []))
        registry
      ≡ some (sync_message 3, synced o' (5 ∷ [])))
    × ((j : ℕ) → lookup j o'.objects ≢ some 9)
round_trip-synced_example =
    round_trip-synced quiet 3 9 (λ p opcode body o w. w) (removal ∷ []) done_event (5 ∷ []) registry
      after_register registered not_nine ((removal-IsMessage, λ e. absurd (omega (arith, e))), tt)
      done_event-IsMessage refl refl
