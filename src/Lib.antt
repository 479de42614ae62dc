-- ===== src/Lib.antt =====
-- perfuncted: a Go library and command (cmd/pf) that drives a Linux desktop: it finds and moves
-- windows, sends keys and pointer events, and captures the screen, over several backends. The parts
-- modelled here are the ones that carry its own logic: the tracker that every session uses to admit
-- and to shut down operations, the predicates that select windows, polling, the keyboard input, the
-- cache of the Wayland connections that the backends share, the decoding of captured frames, and the
-- waits for pixels to match, to change or to settle, and the search of a capture for a picture or a colour.
--
-- A client parses a key string (input/keysend.go) into actions; the virtual keyboard
-- (input/wl_keyboard.go) resolves their names with the key table (internal/keymap) and sends them. A
-- window command parses its specification (window/match.go) and compares each window with it, then
-- checks the new size or position (window/geometry.go). The tracker (internal/operation) runs around
-- both: an operation is admitted before and finished after. A capture takes a session from the cache
-- (internal/wl/session.go), checks the size of its buffer, and decodes the frame
-- (screen/pixels.go); a wait (find/find.go) hashes captures, round after round, with the pauses of
-- poll/poll.go.
--
-- Files:
--   Prelude, Prelude/*         numbers, tests, lists and texts that the parts share
--   Tracker                    internal/operation/tracker.go: Tracker.Begin, its finish function and
--                              Tracker.Close. A section under the mutex is a step; Step interleaves
--                              the steps of any number of calls. Tracker/Inv has the invariant,
--                              Tracker/Admit, Frames, Shutdown and Steps its preservation, Tracker/Safety what
--                              follows
--   Window/Geometry            window/geometry.go: the checks of sizes and positions
--   Window/Fold                window/match.go: the case-insensitive substring search
--   Window/Match               window/match.go and Info of window/window.go: Match, CompileMatch with
--                              its cache, Matcher.Matches. Window/Match/Meaning says what a predicate
--                              means, Window/Match/Cache that the cache does not show
--   Window/Spec                window/match.go: ParseMatchSpec, its lexer, and Match.String;
--                              Window/Spec/Lexer, Scan, Printed and RoundTrip relate
--                              them
--   Wayland/Session            internal/wl/session.go: the cache of reference-counted sessions,
--                              NewSessionContext and Close, as interleaved steps. Session/Inv has the
--                              invariant, Open, Close, Held and Steps its preservation, Safety what follows,
--                              Refines the table of shared connections that the cache implements
--   Wayland/Globals            internal/wl/session.go: addGlobal, removeGlobal and sortGlobals
--   Wayland/Wire               internal/wl/wl.go: integers, strings, requests, and the events of the
--                              registry and of outputs; Wire/RoundTrip and Total are the proofs
--   Wayland/Objects            internal/wl/wl.go: Register, SetProxy and unregister
--   Wayland/Transport          internal/wl/wl.go: reading messages, dispatch and RoundTripContext;
--                              Transport/Frames and Sync are the proofs
--   Find                       find/find.go: the waits. Find/Poll is the loop under them, Read has
--                              WaitFor and WaitForChange, Streak WaitForNoChange with its two probes;
--                              Run, Settled, Prompt and Awaited are the proofs
--   Find/Image                 find/find.go: the layout of images and matchAt, with pixels in a buffer
--                              of bytes; Image/Match and Layout are the proofs
--   Find/Locate                find/find.go: LocateExactInImage for two RGBA images; Locate/Choice is
--                              selectLocateAnchor. Locate/Bounds, Index, Bytes, Row and Rows lead to
--                              Locate/First, which compares it with the search of each place in
--                              Locate/Plain
--   Find/Color                 find/find.go: FindColor, PixelFound and scanPackedPixels; Color/Places
--                              says which pixel is found, Color/Point and Answered where it is
--   Screen/Geometry            screen/capture_geometry.go and screen/rect.go; Screen/Bounds is about
--                              overflow
--   Screen/Pixels              screen/pixels.go: decodeBGRA and decodeBGRARect; Slices, Swapped, Rows and
--                              Decoded follow a byte of the frame to its place in the image
--   Probe                      internal/probe/probe.go: SelectBest
--   Poll                       poll/poll.go: AdaptivePoll, Clamp and WaitFunc
--   Input/Keymap               internal/keymap/keymap.go, with namedKey and modBit of
--                              input/wl_keyboard.go
--   Input/Keysend              input/keysend.go: parseKeySend, parseBraced and parseCombo
--   Input/Mask                 the modifier mask of input/wl_keyboard.go, as four flags
--   Input/Keyboard             input/wl_keyboard.go: state, messages, temporary modifiers, keymap
--                              upload. Input/Keyboard/Plan is validateSendkeysSequence, Layout the
--                              first pass of sendkeys, Send its second pass, Calls pressKey and
--                              releaseKey; Input/Keyboard/Sync and below are the proofs
--
-- Texts are lists of code points, of valid UTF-8. Parameters stand for what the sources take from the
-- system: the Unicode tables above ASCII (lower case, white space), the regular expression engine, and
-- for the keyboard env, which gives the outcome of each call that can fail. In the waits, a list has
-- what each round meets: a hash or the error of the capture, and what the context says. In the session
-- cache, the connection says whether dialing and the registry exchange succeed. In a round trip, a
-- Handler is what the handlers of the other objects do to the registry. Time stamps, time limits
-- of cleanup calls, and the texts of error messages are left out; an error is a value of a data type.
--
-- Fuel: the loops of the key parser take one round for each code point and start with one more than
-- the length of the text. The search of a row of pixels takes one round for each byte of the row and
-- one more. A round trip has a round for each byte of its stream, and each message takes
-- eight at least; Register tries two numbers more than there are objects. takeSlot has fuel for every slot there is. The loop of WaitFunc takes one
-- for each round; it may run for ever in the source, where the function never succeeds. Identifiers
-- of operations wrap at 2 ^ 64, and a step that admits an operation assumes that fewer were admitted
-- before.
--
-- Not modelled: the backends of windows, screen, clipboard and outputs, the messages of the D-Bus and
-- Wayland connections, the accessibility tree, process management of sessions, the command line. They
-- are I/O for the most part. Of find/find.go the hash of an image, the scan of several regions, and
-- the search of images that have no buffer of bytes are left out, and of screen/pixels.go the
-- cropping. The images of the exact search are not nil. In the search for a colour the tolerance is
-- not negative, as FindColor checks. Coordinates of the screen do not overflow there.
pub mod Prelude
pub mod Tracker
pub mod Window
pub mod Input
pub mod Poll
pub mod Wayland
pub mod Find
pub mod Screen
pub mod Probe
