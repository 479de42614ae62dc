-- ===== src/Wayland/Transport/Sync.antt =====
-- internal/wl/wl.go: a round trip ends with the done event of its own callback.
use perfuncted.Prelude.{
  ℕ, zero, suc, ◌+◌, ◌≤◌, ◌<◌, ◌≡◌, ◌≢◌, refl, sym, ◌∙◌, subst, inl, inr, true, false, Option, none,
  some, List, [], ◌∷◌, ◌++◌, length, length-append, All, if◌then◌else◌, arith, Option-cases,
}
use perfuncted.Wayland.Wire.{Bytes, sync_message}
use perfuncted.Wayland.Objects.{Objects, lookup, register, unregister}
use perfuncted.Wayland.Objects.Kept.{register-cases, lookup-delete}
use perfuncted.Wayland.Transport.{
  Message, Handler, dispatched, dispatch, dispatch_read, synced, is_done, pump, begin_sync,
  round_trip,
}
use perfuncted.Wayland.Transport.Frames.{frame, IsMessage, read_message-frame}

-- Messages one after the other, and what follows them.
abbrev pub frames : List Message → Bytes → Bytes
frames [] rest = rest
frames (m ∷ ms) rest = frame m ++ frames ms rest

-- The callback has the identifier, and no other.
abbrev pub IsOwn : ℕ → ℕ → Objects → Type 0
IsOwn id callback o =
    (lookup id o.objects ≡ some callback) × ((j : ℕ) → lookup j o.objects ≡ some callback → j ≡ id)

-- No done event of the callback.
abbrev pub IsOther : ℕ → Message → Type 0
IsOther id m = IsMessage m × (m.sender ≡ id → m.opcode ≢ 0)

module _ (on_event : Handler) (id callback : ℕ)
    (own : (p opcode : ℕ) (body : Bytes) (o : Objects)
      → IsOwn id callback o
      → IsOwn id callback (on_event p opcode body o)) where
  dispatch-frame :
      (o : Objects) (m : Message) (rest : Bytes)
      → IsOwn id callback o
      → IsMessage m
      → (o' : Objects) × (p : Option ℕ) × (dispatch on_event o (frame m ++ rest)
          ≡ dispatched o' p m rest)
        × IsOwn id callback o'
        × (p ≡ lookup m.sender o.objects)
  unfolding dispatch
  dispatch-frame o m rest w g = elim (Option-cases (lookup m.sender o.objects)) [
    | inl e ↦ (o, none, rw (read_message-frame m rest g, dispatch_read, e) refl, w, sym e)
    | inr (p, e) ↦ (
      on_event p m.opcode m.body o,
      some p,
      rw (read_message-frame m rest g, dispatch_read, e) refl,
      own p m.opcode m.body o w,
      sym e,
    )
  ]

  other-is_done :
      (o : Objects) (m : Message)
      → IsOwn id callback o
      → (m.sender ≡ id → m.opcode ≢ 0)
      → is_done callback (lookup m.sender o.objects) m.opcode ≡ false
  other-is_done o m w n = elim (Option-cases (lookup m.sender o.objects)) [
    | inl e ↦ rw e refl
    | inr (p, e) ↦ rw e (ground (arith, w.1 m.sender, n, e))
  ]

  own-is_done :
      (o : Objects) (m : Message)
      → IsOwn id callback o
      → m.sender ≡ id
      → m.opcode ≡ 0
      → is_done callback (lookup m.sender o.objects) m.opcode ≡ true
  own-is_done o m w s z = rw (s, w.0, z) (ground arith)

  pump-step :
      (rounds : ℕ) (o o' : Objects) (p : Option ℕ) (m : Message) (stream rest : Bytes)
      → dispatch on_event o stream ≡ dispatched o' p m rest
      → pump on_event callback (suc rounds) o stream ≡ (
          if is_done callback p m.opcode
          then synced o' rest
          else pump on_event callback rounds o' rest)
  unfolding pump
  pump-step rounds o o' p m stream rest e = rw (e, pump) refl

  pump-synced :
      (rounds : ℕ) (ms : List Message) (last : Message) (rest : Bytes) (o : Objects)
      → length ms < rounds
      → IsOwn id callback o
      → All (IsOther id) ms
      → IsMessage last
      → last.sender ≡ id
      → last.opcode ≡ 0
      → (o' : Objects) × (pump on_event callback rounds o (frames ms (frame last ++ rest))
          ≡ synced o' rest)
        × IsOwn id callback o'
  pump-synced zero ms last rest o l w a g s z = absurd (omega (arith, l))
  pump-synced (suc rounds) [] last rest o l w a g s z =
      let (o', p, e, w', q) = dispatch-frame o last rest w g in
      (
        o',
        pump-step rounds o o' p last (frame last ++ rest) rest e
            ∙ rw (q, own-is_done o last w s z) refl,
        w',
      )
  pump-synced (suc rounds) (m ∷ ms) last rest o l w a g s z =
      let (o', p, e, w', q) = dispatch-frame o m (frames ms (frame last ++ rest)) w a.0.0 in
      let (o'', f, w'') = pump-synced rounds ms last rest o' (omega (arith, l)) w' a.1 g s z in
      (
        o'',
        pump-step rounds o o' p m (frame m ++ frames ms (frame last ++ rest)) _ e
            ∙ rw (q, other-is_done o m w a.0.1) f,
        w'',
      )

  frames-length :
      (ms : List Message) (rest : Bytes) → length ms + length rest ≤ length (frames ms rest)
  frames-length [] rest = omega arith
  frames-length (m ∷ ms) rest =
      omega (arith, frames-length ms rest, length-append (frame m) (frames ms rest))

  rounds_suffice :
      (ms : List Message) (last : Message) (rest : Bytes)
      → length ms < length (frames ms (frame last ++ rest)) + 1
  rounds_suffice ms last rest = omega (arith, frames-length ms (frame last ++ rest))

  registered-IsOwn :
      (o o1 : Objects)
      → register callback o ≡ some (id, o1)
      → ((j : ℕ) → lookup j o.objects ≢ some callback)
      → IsOwn id callback o1
  registered-IsOwn o o1 e fresh =
      let (a, b, c) = register-cases callback id o o1 e in
      (
        rw a (ground arith),
        λ j h. ground (arith, subst (λ l. lookup j l ≡ some callback) a h, fresh j),
      )

  unregister-gone :
      (o : Objects)
      → IsOwn id callback o
      → (j : ℕ) → lookup j (unregister id callback o).objects ≢ some callback
  unfolding unregister
  unregister-gone o w j h = ground (arith, h, w.0, w.1 j, lookup-delete id j o.objects)

  -- A round trip with a new callback, whose request is written, ends when the done event of this
  -- callback comes, after any other messages, with the stream that follows that event; and the
  -- callback is registered no more. The handlers of the other objects leave the callback where it is.
  pub round_trip-synced :
      (ms : List Message) (last : Message) (rest : Bytes) (o o1 : Objects)
      → register callback o ≡ some (id, o1)
      → ((j : ℕ) → lookup j o.objects ≢ some callback)
      → All (IsOther id) ms
      → IsMessage last
      → last.sender ≡ id
      → last.opcode ≡ 0
      → (o' : Objects) × (round_trip on_event callback true (frames ms (frame last ++ rest)) o
          ≡ some (sync_message id, synced o' rest))
        × ((j : ℕ) → lookup j o'.objects ≢ some callback)
  unfolding round_trip
  round_trip-synced ms last rest o o1 e fresh a g s z =
      let stream = frames ms (frame last ++ rest) in
      let (o', f, w) =
        pump-synced (length stream + 1) ms last rest o1 (rounds_suffice ms last rest)
          (registered-IsOwn o o1 e fresh) a g s z in
      (unregister id callback o', rw (e, begin_sync, f) refl, unregister-gone o' w)
