-- ===== src/Wayland/Transport.antt =====
-- internal/wl/wl.go: reading messages, handing them to their objects, and `RoundTripContext`.
-- A stream is what the connection still delivers; a read that is interrupted or finds the connection
-- closed is one that finds too few bytes. The gates let one caller in at a time: a round trip is the
-- sequence of what it does. What the handlers of the other objects do to the registry is a parameter.
pub mod Frames
pub mod Sync
mod Examples
use perfuncted.Prelude.{
  ℕ, zero, suc, ◌+◌, ◌-◌, ◌*◌, ◌/◌, ◌%◌, Bool, true, false, not, ◌&&◌, ◌||◌, Option, none, some,
  List, [], ◌∷◌, ◌++◌, length, take, drop, ltb, ◌==◌, if◌then◌else◌,
}
use perfuncted.Wayland.Wire.{Bytes, put_uint32, uint32, header, sync_message}
use perfuncted.Wayland.Objects.{Objects, lookup, register, unregister}

pub record Message : Type 0 where
  pub sender : ℕ
  pub opcode : ℕ
  pub body : Bytes

pub data Read : Type 0 where
  message : Message → Bytes → Read
  closed : Read
  bad_size : ℕ → Read

unfoldable pub read_body : ℕ → ℕ → Bytes → Read
read_body sender size_opcode stream =
    let wire_size = size_opcode / 65536 in
    if ltb wire_size 8 || not (wire_size % 4 == 0)
    then bad_size wire_size
    else if ltb (length stream) (wire_size - 8)
    then closed
    else message
        (record {
          sender = sender;
          opcode = size_opcode % 65536;
          body = take (wire_size - 8) stream;
        })
        (drop (wire_size - 8) stream)

unfoldable pub read_header : Bytes → Option ℕ → Option ℕ → Read
unfolding read_body
read_header stream (some sender) (some size_opcode) = read_body sender size_opcode stream
read_header stream (some sender) none = closed
read_header stream none size_opcode = closed

-- The reads of `dispatch`.
unfoldable pub read_message : Bytes → Read
unfolding read_header
read_message stream =
    if ltb (length stream) 8
    then closed
    else read_header (drop 8 stream) (uint32 stream) (uint32 (drop 4 stream))

-- The handler of a proxy gets an operation and its body, and may change the registry.
abbrev pub Handler : Type 0
Handler = ℕ → ℕ → Bytes → Objects → Objects

pub data Dispatched : Type 0 where
  -- with the proxy that got the message, if any
  dispatched : Objects → Option ℕ → Message → Bytes → Dispatched
  failed : Read → Dispatched

unfoldable pub deliver : Handler → Objects → Message → Bytes → Option ℕ → Dispatched
deliver on_event o m rest none = dispatched o none m rest
deliver on_event o m rest (some p) = dispatched (on_event p m.opcode m.body o) (some p) m rest

unfoldable pub dispatch_read : Handler → Objects → Read → Dispatched
unfolding deliver
dispatch_read on_event o (message m rest) = deliver on_event o m rest (lookup m.sender o.objects)
dispatch_read on_event o closed = failed closed
dispatch_read on_event o (bad_size n) = failed (bad_size n)

unfoldable pub dispatch : Handler → Objects → Bytes → Dispatched
unfolding dispatch_read
dispatch on_event o stream = dispatch_read on_event o (read_message stream)

pub data Synced : Type 0 where
  synced : Objects → Bytes → Synced
  broken : Objects → Read → Synced
  -- the sync request could not be written
  unsent : Objects → Synced
  pumping : Synced

-- The done event of the callback: its handler tells `RoundTripContext`.
abbrev pub is_done : ℕ → Option ℕ → ℕ → Bool
is_done callback none opcode = false
is_done callback (some p) opcode = (p == callback) && (opcode == 0)

-- The loop of `RoundTripContext`, for so many rounds.
unfoldable pub pump : Handler → ℕ → ℕ → Objects → Bytes → Synced
pump on_event callback zero o stream = pumping
pump on_event callback (suc rounds) o stream = elim (dispatch on_event o stream) [
  | failed r ↦ broken o r
  | dispatched o' p m rest ↦
      let later = pump on_event callback rounds o' rest in
      if is_done callback p m.opcode then synced o' rest else later
]

-- The deferred `unregister`.
unfoldable pub finish : ℕ → ℕ → Synced → Synced
finish id callback (synced o rest) = synced (unregister id callback o) rest
finish id callback (broken o r) = broken (unregister id callback o) r
finish id callback (unsent o) = unsent (unregister id callback o)
finish id callback pumping = pumping

unfoldable pub begin_sync :
    Handler → ℕ → Bool → Bytes → Option (ℕ × Objects) → Option (Bytes × Synced)
unfolding finish
begin_sync on_event callback writes stream none = none
begin_sync on_event callback writes stream (some (id, o)) = some (
  sync_message id,
  finish id callback
      (if writes then pump on_event callback (length stream + 1) o stream else unsent o),
)

-- `RoundTripContext` with a new callback, whether its request can be written, and the stream that
-- follows; with the request.
unfoldable pub round_trip : Handler → ℕ → Bool → Bytes → Objects → Option (Bytes × Synced)
unfolding begin_sync
round_trip on_event callback writes stream o =
    begin_sync on_event callback writes stream (register callback o)
