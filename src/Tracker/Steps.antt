-- ===== src/Tracker/Steps.antt =====
-- Every step of a tracker keeps its invariant, so every world that is reached has it.
use perfuncted.Tracker.{World, Step, Reach, here, next, begins, finishes, enters, advances}
use perfuncted.Tracker.Inv.{Inv}
use perfuncted.Tracker.Admit.{begin-Inv, finish-Inv}
use perfuncted.Tracker.Frames.{enter-Inv}
use perfuncted.Tracker.Shutdown.{advance-Inv}

pub Step-Inv : {w v : World} → Step w v → Inv w → Inv v
Step-Inv {w = w} (begins ctx_err e room) h = begin-Inv ctx_err e w room h
Step-Inv {w = w} (finishes id l u) h = finish-Inv id w l u h
Step-Inv {w = w} enters h = enter-Inv w h
Step-Inv {w = w} (advances release i c d at e) h = advance-Inv release w _ i c d h at e

pub Reach-Inv : {w v : World} → Inv w → Reach w v → Inv v
Reach-Inv h here = h
Reach-Inv h (next r s) = Step-Inv s (Reach-Inv h r)
