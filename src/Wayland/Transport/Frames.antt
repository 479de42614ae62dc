-- ===== src/Wayland/Transport/Frames.antt =====
-- internal/wl/wl.go: a message on the wire is read as it was written, and so are the requests.
use perfuncted.Prelude.{
  ℕ, suc, ◌+◌, ◌-◌, ◌*◌, ◌/◌, ◌%◌, ◌^◌, ◌<◌, ◌≡◌, refl, sym, subst, ap, Bool, true, false, not,
  ◌||◌, some, [], ◌++◌, drop, length, length-append, take-append, drop-append, ltb, ◌==◌, arith,
}
use mathlib.Core.List.{append_assoc}
use perfuncted.Wayland.Globals.{GlobalEvent, global}
use perfuncted.Wayland.Wire.RoundTrip.{global_body, IsGlobal, registry_dispatch-global_body}
use perfuncted.Wayland.Wire.{
  decoded, registry_dispatch, uint32, Bytes, put_uint32, header, put_str, bind_body, bind_message,
}
use perfuncted.Wayland.Wire.Strings.{uint32-put, length-put_str}
use perfuncted.Wayland.Transport.{Message, message, read_body, read_header, read_message}

abbrev pub frame : Message → Bytes
frame m = header m.sender (8 + length m.body) m.opcode ++ m.body

-- A message that the protocol can carry.
pub record IsMessage (m : Message) : Type 0 where
  pub sender_fits : m.sender < 2 ^ 32
  pub opcode_fits : m.opcode < 65536
  pub aligned : length m.body % 4 ≡ 0
  pub body_fits : 8 + length m.body < 65536

size_good : (n : ℕ) → n % 4 ≡ 0 → (ltb (8 + n) 8 || not ((8 + n) % 4 == 0)) ≡ false
size_good n q = ground (arith, q)

size_of : (n c : ℕ) → c < 65536 → ((8 + n) * 65536 + c) / 65536 ≡ 8 + n
size_of n c p = omega (arith, p)

opcode_of : (n c : ℕ) → c < 65536 → ((8 + n) * 65536 + c) % 65536 ≡ c
opcode_of n c p = omega (arith, p)

all_there : (body rest : Bytes) → ltb (length (body ++ rest)) (8 + length body - 8) ≡ false
all_there body rest = ground (arith, length-append body rest)

read-body :
    (m : Message) (rest : Bytes)
    → IsMessage m
    → read_body m.sender ((8 + length m.body) * 65536 + m.opcode) (m.body ++ rest) ≡ message m rest
unfolding read_body
read-body m rest g =
    rw
      (
        size_of (length m.body) m.opcode g.opcode_fits,
        opcode_of (length m.body) m.opcode g.opcode_fits,
        size_good (length m.body) g.aligned,
        all_there m.body rest,
        take-append m.body rest (8 + length m.body - 8) (omega arith),
        drop-append m.body rest (8 + length m.body - 8) (omega arith),
      )
      refl

read-header :
    (m : Message) (rest : Bytes)
    → IsMessage m
    → read_header (m.body ++ rest) (some m.sender) (some ((8 + length m.body) * 65536 + m.opcode))
      ≡ message m rest
unfolding read_header
read-header m rest g = read-body m rest g

long_enough : (n : ℕ) → ltb (suc (suc (suc (suc (suc (suc (suc (suc n)))))))) 8 ≡ false
long_enough n = ground arith

-- A message on the wire is read as it was written, and what follows it is left.
pub read_message-frame :
    (m : Message) (rest : Bytes) → IsMessage m → read_message (frame m ++ rest) ≡ message m rest
unfolding read_message
read_message-frame m rest g =
    rw
      (
        long_enough (length (m.body ++ rest)),
        uint32-put m.sender
            (put_uint32 ((8 + length m.body) * 65536 + m.opcode) ++ (m.body ++ rest)) g.sender_fits,
        uint32-put ((8 + length m.body) * 65536 + m.opcode) (m.body ++ rest)
            (omega (arith, g.body_fits, g.opcode_fits)),
      )
      (read-header m rest g)

bind_length :
    (registry name version new_id : ℕ) (interface : Bytes)
    → length interface + 4 < 2 ^ 32
    → (length (bind_body name interface version new_id) % 4 ≡ 0)
      × (length (bind_body name interface version new_id) < length interface + 21)
bind_length registry name version new_id interface h =
    let (a, b) = length-put_str interface h in
    let e = length-append (put_str interface) (put_uint32 version ++ put_uint32 new_id) in
    (omega (arith, e, a), omega (arith, e, b))

size_fits :
    (n : ℕ)
    → n < 65528
    → suc (suc (suc (suc (suc (suc (suc (suc n))))))) * 65536 % 2 ^ 32 ≡ (8 + n) * 65536 + 0
size_fits n h = omega (arith, h)

bind-IsMessage :
    (registry name version new_id : ℕ) (interface : Bytes)
    → registry < 2 ^ 32
    → length interface < 65500
    → IsMessage
        (record { sender = registry; opcode = 0; body = bind_body name interface version new_id })
bind-IsMessage registry name version new_id interface f h =
    let (a, b) = bind_length registry name version new_id interface (omega (arith, h)) in
    record {
      sender_fits = f;
      opcode_fits = omega arith;
      aligned = a;
      body_fits = omega (arith, b, h);
    }

bind_message-eq :
    (registry name version new_id : ℕ) (interface : Bytes)
    → length interface < 65500
    → bind_message registry name interface version new_id
      ≡ frame
          (record { sender = registry; opcode = 0; body = bind_body name interface version new_id })
unfolding bind_message
bind_message-eq registry name version new_id interface h =
    let body = bind_body name interface version new_id in
    ap (λ (n : ℕ). put_uint32 registry ++ (put_uint32 n ++ body))
      (size_fits (length body) (
        omega
          (arith, (bind_length registry name version new_id interface (omega (arith, h))).1, h)))

-- The body of the request has the fields of the event of the same global, and the new identifier.
bind_body-global_body :
    (ev : GlobalEvent) (new_id : ℕ)
    → bind_body ev.name ev.interface ev.version new_id ≡ global_body ev ++ put_uint32 new_id
bind_body-global_body ev new_id =
    ap (λ b. put_uint32 ev.name ++ b)
      (sym (append_assoc (put_str ev.interface) (put_uint32 ev.version) (put_uint32 new_id)))

last_number :
    (b : Bytes) (n : ℕ)
    → n < 2 ^ 32
    → uint32 (drop (length (b ++ put_uint32 n) - 4) (b ++ put_uint32 n)) ≡ some n
last_number b n h =
    rw
      (drop-append b (put_uint32 n) (length (b ++ put_uint32 n) - 4)
        (omega (arith, length-append b (put_uint32 n))))
      (uint32-put n [] h)

-- The request to bind a global that the protocol can announce is one message for the registry,
-- with operation 0, whose size is that of all its bytes, and what follows it is left. Its body
-- begins with the fields that `Registry.Dispatch` reads from the event of that global, the name,
-- the interface and the version in the same encoding, and ends with the new identifier. The
-- interface is shorter than 65500 bytes and does not end in a NUL, the version is not 0, and the
-- numbers have 32 bits.
pub read_message-bind_message :
    (registry new_id : ℕ) (ev : GlobalEvent) (on_remove : Bool) (rest : Bytes)
    → registry < 2 ^ 32
    → new_id < 2 ^ 32
    → IsGlobal ev
    → length ev.interface < 65500
    → (body : Bytes) × (read_message
          (bind_message registry ev.name ev.interface ev.version new_id ++ rest)
        ≡ message (record { sender = registry; opcode = 0; body = body }) rest)
      × (registry_dispatch true on_remove 0 body ≡ decoded (global ev))
      × (uint32 (drop (length body - 4) body) ≡ some new_id)
read_message-bind_message registry new_id ev on_remove rest f n g h =
    let body = bind_body ev.name ev.interface ev.version new_id in
    let same : body ≡ global_body ev ++ put_uint32 new_id = bind_body-global_body ev new_id in
    (
      body,
      rw (bind_message-eq registry ev.name ev.version new_id ev.interface h) (
          read_message-frame _ rest
            (bind-IsMessage registry ev.name ev.version new_id ev.interface f h)),
      subst (λ b. registry_dispatch true on_remove 0 b ≡ decoded (global ev)) (sym same)
          (registry_dispatch-global_body on_remove ev (put_uint32 new_id) g),
      subst (λ b. uint32 (drop (length b - 4) b) ≡ some new_id) (sym same)
          (last_number (global_body ev) new_id n),
    )
