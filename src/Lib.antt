-- ===== src/Lib.antt =====
-- The parts of choosh that decide what a user sees and what crosses the wire, modelled and verified: the frame
-- formats of the protocol crate, the relay, the terminal engine, and the state of the host daemon.
--
-- choosh connects an Android terminal to agents on remote hosts through a relay. Peers exchange messages
-- in length-prefixed frames (rust/choosh-protocol/src/framing.rs), which arrive in pieces of any size. The
-- bytes that a program prints on the host reach the terminal engine (rust/choosh-terminal-engine), where the
-- parser of the crate vte calls the handlers of the terminal, and the handlers write to a grid of cells with one
-- damage flag for each row, from which the renderer redraws. The host daemon numbers the events of each
-- workspace and retains the last ones, for a client that comes back, and keeps the registry of the host's
-- projects. What the hooks of an agent report becomes an event only after it is validated
-- (rust/choosh-protocol/src/agent_event.rs). The relay (rust/choosh-relayd) authenticates devices and phones,
-- enrols new ones with tokens that are good for one use, and carries tunnels between them.
--
-- Which file models what:
--   Prelude, Prelude/Tests, Prelude/Lists: the library names in use, tests on numbers, lists by index.
--   Protocol/Framing: rust/choosh-protocol/src/framing.rs. `feed` returns none if its loop ran out of fuel;
--     the fuel is the length of the input, and each round of the loop takes a byte. Below it Stream has
--     the specification, a machine that reads one byte at a time; Refine, Loop, Runs and Shift relate the
--     two; Feed and RoundTrip have the theorems, Tests runs and witnesses.
--   Engine/Grid: rust/choosh-terminal-engine/src/grid.rs. The scrolls return none where `u16` arithmetic
--     underflows, which is a panic. Below it Cells and Rows read the flat array as a function of
--     column and row, Scroll has the loops and Regions the two scrolls.
--   Engine/Modes, Engine/Color: modes.rs and color.rs of the same crate.
--   Engine/Terminal: terminal.rs, the state and the shared operations; Sgr has apply_sgr (its fuel is the
--     number of parameter groups, of which each round takes one at least), Csi csi_dispatch, Perform the other
--     handlers and runs of them. Invariant, Print, Dispatch, Safety and Runs carry the invariant through every
--     handler; Panics says which actions panic.
--   Engine/Grid/Damage, Engine/Terminal/Redraw, Repaint, Screens, Damage: the damage flags, from the single
--     write to whole runs of the parser. Engine/Grid/Resize, Engine/Terminal/Resizing: the resize.
--     Engine/Terminal/Deletion: the deletion of characters. Engine/Terminal/SgrLoop, Styles: the loop of apply_sgr,
--     and the styles that a program can ask for.
--   Engine/Keys, Engine/Mouse: keys.rs and mouse.rs of the same crate, with Keys/Decode and Mouse/Bits for what
--     they send. A decimal number has five digits at most, which is the fuel of `decimal`.
--   Protocol/Offload: rust/choosh-protocol/src/offload.rs, over a JSON library that is a parameter; its RoundTrip
--     asks of the library that it reads what it wrote.
--   Engine/Surface: `Engine` of lib.rs. Engine/InputTests: more witnesses.
--   Host/Spool: rust/choosh-hostd/src/agent_event_spool.rs, over any type of events. Follows has the invariant of one
--     workspace, Replay the operations of the whole spool.
--   Prelude/Equality, Prelude/Maps, Prelude/Outcomes: equality tests, maps as association lists, results.
--   Protocol/Relay, Protocol/TunnelFrame: rust/choosh-protocol/src/relay.rs, the messages as data and the tunnel codec.
--   Relayd/Wire, Relayd/Ca, Relayd/State: wire.rs, ca.rs and state.rs of rust/choosh-relayd/src.
--   Relayd/Sockets, Tunnels, Access, Listings, Requests, Dispatch, Serve: ws.rs of the same crate, from the channel
--     and the kill switch of one connection up to what a task does with a message. Access/Authentication,
--     Tunnels/Routing and Tunnels/Closing have theorems about single operations.
--   Relayd/Steps: the step relation of the relay. The beginning and the end of a connection are several steps, one for
--     each change of the registry, between which other tasks run; the answer to one frame is one step. The minting of
--     a session for a phone is the one of rust/choosh-relayd/src/webauthn.rs. The theorems on runs ask by AllFresh that
--     a random token, tunnel id or device id is one that the registry does not have. Relayd/Sockets/Phases has what
--     a connection goes through. Relayd/Acts takes every step apart into acts of one change
--     each, and Relayd/Invariants proves of the acts what holds of all reachable states.
--   Relayd/Toy, Demo, Tests, TunnelTests: toy crates, a run of the relay, and witnesses.
--   Host/Registry: rust/choosh-hostd/src/registry.rs. Finding has the lemmas on searches, Names the well-formed states,
--     Runs sequences of calls.
--   Protocol/AgentEvent: rust/choosh-protocol/src/agent_event.rs. Syntax has the checks of ids, times and paths.
--   Engine/Tests: runs of the engine, and witnesses.
--
-- Numbers are natural numbers with the bounds of the source written out: `saturating_add` is a minimum with
-- 65535, `saturating_sub` is the subtraction that stops at 0. A plain `u16` sum that the invariant keeps in
-- range is written as it is; one that can overflow returns none.
--
-- Not modelled: the parser of the crate vte (its calls are the actions of Perform) and the table of the crate
-- unicode-width (the parameter `Unicode`, of which theorems ask that no character is wider than three
-- columns, as it is in the version in use); the relay's WebAuthn ceremonies, push delivery, HTTP routes and rate
-- limiter; the rest of the host daemon, the Android bridge and the web front end, mostly sockets, processes,
-- files and other libraries.
pub mod Prelude
pub mod Protocol
pub mod Relayd
pub mod Engine
pub mod Host
