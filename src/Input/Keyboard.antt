-- ===== src/Input/Keyboard.antt =====
-- input/wl_keyboard.go: the Wayland virtual keyboard. This file has its state, its protocol
-- messages and the small operations; the children have the passes of `sendkeys` and the proofs.
-- `env n` is the outcome of the n-th call that can fail (a write to the connection, a step of the
-- keymap file, a wait on the context): `none` is success. Time stamps are left out.
pub mod Send
pub mod Plan
pub mod Layout
pub mod Calls
pub mod Slots
pub mod Sync
mod Examples
mod Tests
use perfuncted.Prelude.{
  ℕ, zero, suc, ◌+◌, ◌-◌, ◌≡◌, Bool, true, false, not, ◌&&◌, ◌||◌, Option, none, some, List, [],
  ◌∷◌, is_empty, ltb, leb, ◌==◌, if◌then◌else◌,
}
use perfuncted.Prelude.Text.{Text, text_eq}
use perfuncted.Input.Mask
use perfuncted.Input.Keysend.{Modifiers, no_modifiers}

-- A keymap, as the entries of its text. A named entry has the key name `KNAM`.
pub data XkbEntry : Type 0 where
  slot_entry named_entry : ℕ → Text → XkbEntry

pub record Xkb : Type 0 where
  pub maximum : ℕ
  pub entries : List XkbEntry

unfoldable pub entry_eq : XkbEntry → XkbEntry → Bool
entry_eq (slot_entry a s) (slot_entry b t) = (a == b) && text_eq s t
entry_eq (named_entry a s) (named_entry b t) = (a == b) && text_eq s t
entry_eq (slot_entry a s) (named_entry b t) = false
entry_eq (named_entry a s) (slot_entry b t) = false

unfoldable pub entries_eq : List XkbEntry → List XkbEntry → Bool
unfolding entry_eq
entries_eq [] [] = true
entries_eq [] (e ∷ m) = false
entries_eq (d ∷ l) [] = false
entries_eq (d ∷ l) (e ∷ m) = entry_eq d e && entries_eq l m

unfoldable pub is_last : Option Xkb → Xkb → Bool
unfolding entries_eq
is_last none k = false
is_last (some j) k = (j.maximum == k.maximum) && entries_eq j.entries k.entries

-- A message that the compositor received. A key message has the scancode, 8 below the keycode.
pub data Msg : Type 0 where
  keymap_msg : Xkb → Msg
  key_msg : ℕ → ℕ → Msg
  mods_msg : Modifiers → Msg

pub data KbdErr : Type 0 where
  io : ℕ → KbdErr
  joined : KbdErr → KbdErr → KbdErr
  not_held already_held multi_character : Text → KbdErr
  low_keycode bad_state bad_slot too_many : ℕ → KbdErr
  shared_slot out_of_slots : KbdErr

pub record Kbd : Type 0 where
  pub mods : Modifiers
  pub held : List (Text × ℕ)
  pub last_keymap : Option Xkb
  -- what the compositor received, the latest first, and how many calls that can fail were made
  pub sent : List Msg
  pub clock : ℕ

pub data Out {ℓ} (A : Type ℓ) : Type ℓ where
  done : A → Out A
  failed : KbdErr → Out A

abbrev pub Act : Type 0 → Type 0
Act A = Kbd → Out A × Kbd

abbrev pub pure : {A : Type 0} → A → Act A
pure a k = (done a, k)

abbrev pub fail : {A : Type 0} → KbdErr → Act A
fail e k = (failed e, k)

abbrev pub follow : {A B : Type 0} → Out A → (A → Act B) → Act B
follow (done a) f k = f a k
follow (failed e) f k = (failed e, k)

infixl 5 ◌>>=◌ ◌>>◌
abbrev pub ◌>>=◌ : {A B : Type 0} → Act A → (A → Act B) → Act B
◌>>=◌ m f k = let (r, k') = m k in follow r f k'

abbrev pub ◌>>◌ : {B : Type 0} → Act (Unit {0}) → Act B → Act B
m >> n = m >>= λ _. n

abbrev pub settle : {A : Type 0} → Out A → (KbdErr → Act A) → Act A
settle (done a) f k = (done a, k)
settle (failed e) f k = f e k

-- `if err := m; err != nil { ... }`
abbrev pub on_error : {A : Type 0} → Act A → (KbdErr → Act A) → Act A
on_error m f k = let (r, k') = m k in settle r f k'

-- Go's `_ = m`, and `errors.Join(e, m)`
abbrev pub ignore : {A : Type 0} → Act A → Act (Unit {0})
ignore m k = (done tt, (m k).1)

abbrev pub join_with : {A : Type 0} → KbdErr → Out (Unit {0}) → Out A
join_with e (done _) = failed e
join_with e (failed f) = failed (joined e f)

abbrev pub fail_after : {A : Type 0} → KbdErr → Act (Unit {0}) → Act A
fail_after e m k = let (r, k') = m k in (join_with e r, k')

abbrev pub set_mods : Modifiers → Act (Unit {0})
set_mods m k = (done tt, record k { mods = m })

abbrev pub get_mods : Act Modifiers
get_mods k = (done k.mods, k)

module _ (env : ℕ → Option ℕ) where
  abbrev outcome : Option ℕ → Out (Unit {0})
  outcome none = done tt
  outcome (some e) = failed (io e)

  abbrev delivered : Option ℕ → Msg → List Msg → List Msg
  delivered none m sent = m ∷ sent
  delivered (some e) m sent = sent

  -- A wait on the context, or a step of the keymap file.
  unfoldable pub pause : Act (Unit {0})
  pause k = (outcome (env k.clock), record k { clock = suc k.clock })

  -- `WriteMsgContext`
  unfoldable pub write : Msg → Act (Unit {0})
  write m k = (
    outcome (env k.clock),
    record k { clock = suc k.clock; sent = delivered (env k.clock) m k.sent },
  )

  unfoldable pub send_key : ℕ → ℕ → Act (Unit {0})
  unfolding write
  send_key keycode state =
      if ltb keycode 8
      then fail (low_keycode keycode)
      else if ltb 1 state
      then fail (bad_state state)
      else write (key_msg (keycode - 8) state)

  unfoldable pub send_modifiers : Act (Unit {0})
  unfolding write
  send_modifiers k = write (mods_msg k.mods) k

  unfoldable pub cleanup_send_key : ℕ → Act (Unit {0})
  unfolding send_key
  cleanup_send_key keycode = send_key keycode 0

  unfoldable pub cleanup_modifier_key : ℕ → Modifiers → Act (Unit {0})
  unfolding send_key send_modifiers
  cleanup_modifier_key keycode bit = do
    send_key keycode 0
    previous_mods ← get_mods
    set_mods (Mask.minus previous_mods bit)
    on_error send_modifiers (λ e. do set_mods previous_mods; fail e)

  unfoldable pub tap : ℕ → Act (Unit {0})
  unfolding pause send_key cleanup_send_key
  tap keycode = do
    pause
    send_key keycode 1
    on_error pause (λ e. fail_after e (cleanup_send_key keycode))
    on_error pause (λ e. fail_after e (cleanup_send_key keycode))
    on_error (send_key keycode 0) (λ e. fail_after e (cleanup_send_key keycode))

  -- The part of `uploadKeymap` for a keymap that is not the last one.
  install : Xkb → Act (Unit {0})
  unfolding pause write
  install keymap = do
    pause
    on_error pause (λ e. fail_after e pause)
    on_error (write (keymap_msg keymap)) (λ e. fail_after e pause)
    pause
    λ k. (done tt, record k { last_keymap = some keymap })

  unfoldable pub upload_keymap : Xkb → Act (Unit {0})
  unfolding install is_last
  upload_keymap keymap k = if is_last k.last_keymap keymap then (done tt, k) else install keymap k

  unfoldable pub upload_keymap_and_restore_mods : Xkb → Act (Unit {0})
  unfolding upload_keymap send_modifiers
  upload_keymap_and_restore_mods keymap = do
    upload_keymap keymap
    mods ← get_mods
    if Mask.is_zero mods then pure tt else send_modifiers

  abbrev pub raise_mods : Modifiers → Act Modifiers
  raise_mods mask = do
    mods ← get_mods
    let added = Mask.minus mask mods
    set_mods (Mask.union mods added)
    on_error send_modifiers (λ e. do set_mods (Mask.minus (Mask.union mods added) added); fail e)
    pure added

  unfoldable pub apply_temp_mods : Modifiers → Act Modifiers
  unfolding send_modifiers
  apply_temp_mods mask = do
    mods ← get_mods
    if Mask.is_zero (Mask.minus mask mods) then pure no_modifiers else raise_mods mask

  unfoldable pub clear_temp_mods : Modifiers → Act (Unit {0})
  unfolding send_modifiers
  clear_temp_mods mask =
      if Mask.is_zero mask
      then pure tt
      else do mods ← get_mods; set_mods (Mask.minus mods mask); send_modifiers

  unfoldable pub clear_temp_mods_best_effort : Modifiers → Act (Unit {0})
  unfolding send_modifiers
  clear_temp_mods_best_effort mask =
      if Mask.is_zero mask
      then pure tt
      else do mods ← get_mods; set_mods (Mask.minus mods mask); ignore send_modifiers
