-- ===== src/Lib.antt =====
-- A Wayland compositor for macOS: each window of a Linux program becomes a native window.
--
-- The Wayland thread (src/wayland/) keeps a `State`, changes it at each request of a client and each
-- input event from AppKit, and sends commands (`WinCmd` of src/mac.rs) to the AppKit side. With
-- several apps the multiplexer (src/router.rs) hands each command to the process that hosts the
-- window's app. For remote apps, csrc/rail_bridge.c asks src/rail_route.rs which of the windows of
-- the remote desktop to mirror, and which window a surface's pixels belong to.
--
-- Which file models which part:
--   * Base/: lists, options, maps as association lists (`HashMap`, `BTreeMap`), `i32` with its
--     wrap-around, and the `f64` operations as a parameter.
--   * Rail/Route.antt: `Router` of src/rail_route.rs, one function per method. Rail/Route/Bridge.antt:
--     the loop of csrc/rail_bridge.c that acts on its verdicts. `covers` compares areas as floats:
--     their operations are the parameter `F64`, about which nothing is assumed.
--     Rail/Front.antt: the callbacks of src/rail.rs, and Rail/Front/Pointer.antt its input loop.
--   * Mac.antt and Mac/: the commands, the key table, colour spaces and sizes of src/mac.rs.
--     Mac/Shell.antt: its grabs, mouse buttons, filled windows and the end of a window. What AppKit
--     tells of the mouse and the screens is a parameter. Mac/Placement.antt: where a new window or
--     popup is put, over any floats. Mac/Image.antt: the checks of `make_cgimage`.
--     Mac/Constrain.antt: the constraint on a frame that is set, after AppKit's own.
--   * Bus.antt: `InputBus` of src/input.rs, where the two halves of a push and of the reader's turn
--     are steps of two threads, in any order.
--   * Ipc.antt: src/ipc.rs. `Codec` is bincode at one type; a socket is its bytes, and may break
--     after any of them. Host.antt: src/host.rs, the process at the other end of the router's socket.
--   * Cli.antt: what src/cli.rs finds of its instances in the files of /tmp, and what it stops. Which
--     pids are alive and which calls fail is a parameter; the signals that are sent are a list.
--   * Wayland/Types.antt: the records of src/wayland/mod.rs. An object of the protocol is its id, and
--     `Env` holds what a handler reads of the server library, the clock, and the shared memory of a
--     client. `State` has two logs, of the events to clients and of the calls to AppKit.
--   * Wayland/Shm.antt: reading a buffer. Wayland/Positioner.antt: the place of a popup.
--     Wayland/Windows.antt, Wayland/Subsurface.antt, Wayland/Layer.antt, Wayland/Commit.antt: the
--     methods of `State`. Wayland/Input.antt: `process_input`. Wayland/Requests.antt: the requests of
--     src/wayland/xdg_shell.rs, compositor.rs, layer_shell.rs, seat.rs, viewporter.rs, decoration.rs,
--     presentation.rs and xdg_activation.rs. Wayland/Steps.antt: all of them as one machine.
--     Wayland/Loop.antt: a turn of `run`, with the requests of all the modules. Wayland/Color.antt,
--     Wayland/Primary.antt, Wayland/Clipboard.antt, Wayland/Icons.antt:
--     src/wayland/color_management.rs, primary_selection.rs, clipboard.rs, xdg_toplevel_icon.rs and
--     some smaller protocols. The parts of `State` that only one of them uses are records of their
--     own.
--   * Router.antt: src/router.rs, where encoding a message and starting a host are parameters.
--
-- A function that can end the process returns `Checked`: it crashes, or returns its result. An index
-- into a map with a missing key crashes, and so does an allocation that fails, or a thread of the
-- clipboard that cannot be started. `i32` arithmetic wraps as in a release build; the dev profile
-- panics there instead.
--
-- Fuel is given to the walk up the parents of a subsurface: one step more than there are subsurfaces,
-- which is enough, since the walk stops at a surface that it has seen; and to the loops that read
-- frames from a socket: more than the number of messages that were written is enough.
--
-- Not modelled: AppKit and the calls of it, processes, sockets and files themselves, the encoding of
-- messages, the threads that move clipboard contents, the start of programs by the command line,
-- and the protocols that keep no state.
pub mod Base
pub mod Ipc
pub mod Bus
pub mod Host
pub mod Cli
pub mod Rail
pub mod Mac
pub mod Wayland
pub mod Router
