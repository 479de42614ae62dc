-- ===== src/Wayland/Session/Examples.antt =====
-- Tests and examples for internal/wl/session.go.
use perfuncted.Prelude.{ℕ, ◌<◌, ◌≡◌, refl, true, false, none, some, mem, total}
use perfuncted.Wayland.Session.{
  Session, dialing, publishing, sharing, releasing, disconnecting, World, open_session,
  close_session, advance, with_call, with_call_at, opens, closes, advances, Reach, here, next,
  no_sessions,
}
use perfuncted.Wayland.Session.Counts.{call_owns, same}
use perfuncted.Wayland.Session.Safety.{open_connected, open_shared, no_leak}
use perfuncted.Wayland.Session.Refines.{Moves, held_table, Step-Moves}

-- The handles that socket 5 gives.
abbrev opened : Session
opened = record { sock = 5; conn = some 0; ref = some 0; close_done = false }

-- Two calls dial at once; the second to publish closes its connection and shares the other. Then
-- both handles are closed.
abbrev w1 : World
unfolding open_session advance close_session
w1 = with_call (open_session false 5 no_sessions)

abbrev w2 : World
unfolding open_session advance close_session
w2 = with_call (open_session false 5 w1)

abbrev w3 : World
unfolding open_session advance close_session
w3 = with_call_at 1 (advance true true (dialing 5) w2)

abbrev w4 : World
unfolding open_session advance close_session
w4 = with_call_at 0 (advance true true (dialing 5) w3)

abbrev w5 : World
unfolding open_session advance close_session
w5 = with_call_at 1 (advance false false (publishing 5 0) w4)

abbrev w6 : World
unfolding open_session advance close_session
w6 = with_call_at 0 (advance false false (publishing 5 1) w5)

abbrev w7 : World
unfolding open_session advance close_session
w7 = with_call_at 0 (advance false false (sharing 1 0) w6)

abbrev w8 : World
unfolding open_session advance close_session
w8 = with_call (close_session 0 opened w7)

abbrev w9 : World
unfolding open_session advance close_session
w9 = with_call (close_session 1 opened w8)

abbrev w10 : World
unfolding open_session advance close_session
w10 = with_call_at 1 (advance false false (releasing opened) w9)

abbrev w11 : World
unfolding open_session advance close_session
w11 = with_call_at 0 (advance false false (releasing opened) w10)

abbrev w12 : World
unfolding open_session advance close_session
w12 = with_call_at 0 (advance false false (disconnecting 0) w11)

r1 : Reach no_sessions w1
unfolding open_session advance close_session
r1 = next here (opens false 5)

r2 : Reach no_sessions w2
unfolding open_session advance close_session
r2 = next r1 (opens false 5)

r3 : Reach no_sessions w3
unfolding open_session advance close_session
r3 = next r2 (advances true true 1 (dialing 5) refl)

r4 : Reach no_sessions w4
unfolding open_session advance close_session
r4 = next r3 (advances true true 0 (dialing 5) refl)

r5 : Reach no_sessions w5
unfolding open_session advance close_session
r5 = next r4 (advances false false 1 (publishing 5 0) refl)

r6 : Reach no_sessions w6
unfolding open_session advance close_session
r6 = next r5 (advances false false 0 (publishing 5 1) refl)

r7 : Reach no_sessions w7
unfolding open_session advance close_session
r7 = next r6 (advances false false 0 (sharing 1 0) refl)

r8 : Reach no_sessions w8
unfolding open_session advance close_session
r8 = next r7 (closes 0 opened refl)

r9 : Reach no_sessions w9
unfolding open_session advance close_session
r9 = next r8 (closes 1 opened refl)

r10 : Reach no_sessions w10
unfolding open_session advance close_session
r10 = next r9 (advances false false 1 (releasing opened) refl)

r11 : Reach no_sessions w11
unfolding open_session advance close_session
r11 = next r10 (advances false false 0 (releasing opened) refl)

r12 : Reach no_sessions w12
unfolding open_session advance close_session
r12 = next r11 (advances false false 0 (disconnecting 0) refl)

open_connected_example :
    (conn : ℕ) × (opened.conn ≡ some conn)
    × (w7.cache 5 ≡ opened.ref)
    × (mem conn w7.shut ≡ false)
    × (total (call_owns conn) w7.calls ≡ 0)
unfolding open_session advance close_session
open_connected_example = open_connected w7 0 opened r7 refl refl

open_shared_test : opened.conn ≡ opened.conn
unfolding open_session advance close_session
open_shared_test = open_shared w7 0 1 opened opened r7 refl refl refl refl refl

no_leak_example :
    ((sock : ℕ) → w12.cache sock ≡ none)
    × ((conn : ℕ) → conn < w12.conns → total (same conn) w12.shut ≡ 1)
unfolding open_session advance close_session
no_leak_example = no_leak w12 r12 (refl, (refl, (refl, (refl, tt)))) (refl, (refl, tt))

Step-Moves_example : Moves (held_table w6 5) (held_table w7 5)
unfolding open_session advance close_session
Step-Moves_example = Step-Moves w6 w7 5 r6 (advances false false 0 (sharing 1 0) refl)
