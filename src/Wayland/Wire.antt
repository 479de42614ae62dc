-- ===== src/Wayland/Wire.antt =====
-- internal/wl/wl.go: the wire encoding of integers and strings, the messages that the client sends,
-- and the decoding of registry and output events. A byte is a number below 256.
pub mod Strings
pub mod RoundTrip
pub mod Total
mod Examples
use perfuncted.Prelude.{
  ℕ, suc, ◌+◌, ◌-◌, ◌*◌, ◌/◌, ◌%◌, ◌^◌, Bool, true, false, not, ◌||◌, Option, none, some, List, [],
  ◌∷◌, ◌++◌, ◌&&◌, length, is_empty, zeros, get_elem?, take, drop, ltb, leb, ◌==◌, if◌then◌else◌,
}
use perfuncted.Wayland.Globals.{GlobalEvent, Event, global, global_remove}

abbrev pub Bytes : Type 0
Bytes = List ℕ

-- `PutUint32`, which also is what `put32` appends.
abbrev pub put_uint32 : ℕ → Bytes
put_uint32 v = v % 256 ∷ (v / 256 % 256 ∷ (v / 65536 % 256 ∷ (v / 16777216 % 256 ∷ [])))

-- `Uint32` fails on fewer than four bytes.
unfoldable pub uint32 : Bytes → Option ℕ
uint32 [] = none
uint32 (a ∷ []) = none
uint32 (a ∷ (b ∷ [])) = none
uint32 (a ∷ (b ∷ (c ∷ []))) = none
uint32 (a ∷ (b ∷ (c ∷ (d ∷ bs)))) = some (a + b * 256 + c * 65536 + d * 16777216)

-- `putStr`: the length with the NUL, the string, and zeros up to a multiple of four. The length is a
-- 32-bit number.
unfoldable pub put_str : Bytes → Bytes
put_str s =
    let n = (length s + 1) % 2 ^ 32 in
    let padded = (n + 3) % 2 ^ 32 - (n + 3) % 2 ^ 32 % 4 in
    put_uint32 n ++ (s ++ zeros (padded - length s))

-- `strings.TrimRight(s, "\x00")`
unfoldable pub trim_right : Bytes → Bytes
trim_right [] = []
trim_right (c ∷ cs) = let rest = trim_right cs in if is_empty rest && (c == 0) then [] else c ∷ rest

-- What an event does: it calls its handler, or nothing; or it fails at a byte that is not there.
pub data Decoded : Type 0 where
  decoded : Event → Decoded
  ignored panics : Decoded

unfoldable pub decode_version : ℕ → Bytes → Option ℕ → Decoded
decode_version name interface none = panics
decode_version name interface (some version) =
    if version == 0
    then ignored
    else decoded (global (record { name = name; interface = interface; version = version }))

unfoldable pub decode_string : ℕ → ℕ → Bytes → Option ℕ → Decoded
unfolding decode_version trim_right
decode_string name slen bytes none = panics
decode_string name slen bytes (some last) =
    let remaining = length bytes - 8 in
    let extra = (4 - slen % 4) % 4 in
    let off = 8 + (slen + extra) in
    if not (last == 0)
    then ignored
    else if ltb (remaining - slen) extra
    then ignored
    else if ltb (length bytes) (off + 4)
    then ignored
    else decode_version name (trim_right (take slen (drop 8 bytes))) (uint32 (drop off bytes))

unfoldable pub decode_name : Bytes → Option ℕ → Option ℕ → Decoded
unfolding decode_string
decode_name bytes (some name) (some slen) =
    if (slen == 0) || ltb (length bytes - 8) slen
    then ignored
    else decode_string name slen bytes (get_elem? bytes (8 + slen - 1))
decode_name bytes (some name) none = panics
decode_name bytes none slen = panics

unfoldable pub decode_removed : Option ℕ → Decoded
decode_removed none = panics
decode_removed (some name) = decoded (global_remove name)

-- `Registry.Dispatch`, with whether its two handlers are set.
unfoldable pub registry_dispatch : Bool → Bool → ℕ → Bytes → Decoded
unfolding decode_name decode_removed
registry_dispatch on_global on_remove opcode bytes =
    if opcode == 0
    then (if not on_global || ltb (length bytes) 8
        then ignored
        else decode_name bytes (uint32 bytes) (uint32 (drop 4 bytes)))
    else if opcode == 1
    then (if on_remove && leb 4 (length bytes) then decode_removed (uint32 bytes) else ignored)
    else ignored

pub record OutputMode : Type 0 where
  pub flags : ℕ
  pub width : ℕ
  pub height : ℕ
  pub refresh : ℕ

mode_of : Option ℕ → Option ℕ → Option ℕ → Option ℕ → Option OutputMode
mode_of (some f) (some w) (some h) (some r) =
    some (record { flags = f; width = w; height = h; refresh = r })
mode_of (some f) (some w) (some h) none = none
mode_of (some f) (some w) none r = none
mode_of (some f) none h r = none
mode_of none w h r = none

-- Nothing also where the source returns false: the reads do not fail then.
unfoldable pub decode_output_mode : Bytes → Option OutputMode
unfolding mode_of
decode_output_mode bytes =
    if ltb (length bytes) 16
    then none
    else mode_of (uint32 bytes) (uint32 (drop 4 bytes)) (uint32 (drop 8 bytes))
        (uint32 (drop 12 bytes))

-- The header of a message: the object, the size and the operation.
abbrev pub header : ℕ → ℕ → ℕ → Bytes
header id size opcode = put_uint32 id ++ put_uint32 (size * 65536 + opcode)

abbrev pub get_registry_message : ℕ → Bytes
get_registry_message registry = header 1 12 1 ++ put_uint32 registry

abbrev pub sync_message : ℕ → Bytes
sync_message callback = header 1 12 0 ++ put_uint32 callback

abbrev pub create_pool_message : ℕ → ℕ → ℕ → Bytes
create_pool_message shm pool size = header shm 16 0 ++ (put_uint32 pool ++ put_uint32 size)

abbrev pub create_buffer_message : ℕ → ℕ → ℕ → ℕ → ℕ → ℕ → ℕ → Bytes
create_buffer_message pool buffer offset width height stride format =
    header pool 32 0
    ++ (put_uint32 buffer
        ++ (put_uint32 offset
            ++ (put_uint32 width
                ++ (put_uint32 height ++ (put_uint32 stride ++ put_uint32 format)))))

abbrev pub destroy_pool_message : ℕ → Bytes
destroy_pool_message pool = header pool 8 1

abbrev pub destroy_buffer_message : ℕ → Bytes
destroy_buffer_message buffer = header buffer 8 0

abbrev pub bind_body : ℕ → Bytes → ℕ → ℕ → Bytes
bind_body name interface version new_id =
    put_uint32 name ++ (put_str interface ++ (put_uint32 version ++ put_uint32 new_id))

-- The size is written once the message is complete, in a 32-bit number.
unfoldable pub bind_message : ℕ → ℕ → Bytes → ℕ → ℕ → Bytes
bind_message registry name interface version new_id =
    let buf = put_uint32 registry ++ (put_uint32 0 ++ bind_body name interface version new_id) in
    take 4 buf ++ (put_uint32 (length buf * 65536 % 2 ^ 32) ++ drop 8 buf)
