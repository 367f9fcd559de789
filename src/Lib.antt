-- ===== src/Lib.antt =====
-- neuswc: a library for Wayland compositors in C. The library libswc/ keeps the state behind each
-- protocol (surfaces, panels, tokens, timers), and a window manager drives it by the functions of
-- libswc/swc.h. Modelled here are parts of it that keep a state machine of their own and whose errors
-- would be memory errors or broken promises to a client. Each component has its data types with the
-- fields of the C structs, and one function for each handler, with the handler's guards in the
-- handler's order.
--
-- Files and the code that they are about:
--   Prelude (Tests, Lists, Word, Int): Boolean tests on numbers, lists measured by numbers,
--     integers, and counters that wrap around at 2 ^ 32. No code of the repository.
--   Workspace: libswc/workspace.c, the groups and workspaces that a panel sees (ext-workspace).
--     Types has the structs; Destroy the destructors (maybe_free_group, destroy_group_resources,
--     destroy_manager_resources); Create has create_group and bind_manager; Requests the requests of
--     a client and manager_commit; Screens what a change of the screens and swc_workspace_set_active
--     do. The other files prove: Counts, CreateCounts, Left, RequestCounts and ScreenCounts are about
--     reference counts, Teardown and ManagerTeardown about the two teardowns, Complete, Bind, Commit,
--     Active and Dangling about one operation each.
--   Bindings: libswc/bindings.c, and the pairing of presses with releases in libswc/keyboard.c and
--     libswc/pointer.c. Entries finds, adds and removes entries; Handle has presses and releases of a
--     keyboard or a pointer; Session the batches and all sequences of events; Axis the wheels. Counts
--     and Tracked are about the counts of presses, Pairing, Few, Releases and Changes about what is
--     held, Reached about all sequences, and Heard about what a handler is told. A handler does not
--     call back.
--   Idle: libswc/idle_notify.c (Notify) and libswc/idle_inhibit.c (Inhibit). A change of the
--     inhibitors calls idle_notify_inhibit_changed, and arm asks idle_inhibit_active, so the two are
--     one state machine, whose events are in Session. What is seen changes at any time, and
--     libswc/compositor.c runs idle_inhibit_update later, so these are two events. Fit is about
--     single operations, and Clock about one notification in time.
--   Activation: libswc/xdg_activation.c. Token and Manager have the code, Hex is about the random
--     text, Safety, Modify, Moves and Use about single operations, and Session about all their
--     sequences.
--   Subsurface: libswc/subsurface.c. State has one parent surface, its children and its three
--     orders of them, with place_above and place_below; Commit the commits of the parent and the life
--     of a child; Session the sequences of events, in which libswc/surface.c applies each commit at
--     once; Position the place of a child's view. Stack has the orders as one list of layers, which
--     Layers and Refines are about. Agreement and Marks are about the marks order_dirty, Reached
--     about all sequences, and Stale about a commit that was cached.
--   Surface: libswc/surface.c. State has the three states of a surface and the requests, Cache how a
--     commit is cached, Commit how it is applied, Pixels where the pixels of a scaled or turned buffer
--     come from.
--     Session has the sequences of requests, commits and frames. Latest, Flagged and Applied are about
--     a commit that is added to a cached one, and Frames and Reached about callbacks. The regions of pixman are
--     a parameter (Regions).
--   Syncobj: libswc/drm_syncobj.c. World has the timelines, the points and the ends of a release
--     point; Queue the buffer on screen and those that wait; Commits and Apply what a commit does;
--     Life the objects and their ends. Balance, QueueBalance, Applied, Shape, Sound, Moves and Ends
--     are about single operations, Session and Reached about all their sequences, Check about the
--     errors of a commit, and Due, DueQueue, Shown, DueCommits and DueApply about release points.
--     libswc/surface.c calls check_commit, apply_commit, cache_commit, settle and finish; these calls
--     are events here, in any order.
--   Lock: libswc/session_lock.c. State has the lock, its begin and its end; Surfaces and Requests
--     the handlers; Session the sequences of events. Near says what most handlers leave alone,
--     Effects and Steps what the others do, and Reached what follows for all sequences. A screen counts as
--     covered when libswc/compositor.c or a backend calls session_lock_frame_presented; these calls
--     are events.
--   Launch: launch/protocol.c, the messages between the launcher and the compositor. Message has the
--     size of a message and what both ends share, Send has send_fd, Receive has receive_fd, and
--     Descriptors what that does with the descriptors that arrive. Size
--     is about the sizes that are let through, Sent about what send_fd leaves on the wire, Received
--     about the loops that read, RoundTrip about both ends, and Rights about descriptors. The kernel
--     is a parameter (Kernel): how many bytes a system call moves, at most what it may.
--   View: libswc/view.c (State) and rectangle_overlap of libswc/util.h (Geometry). Overlap is about that
--     test, Screens about the screens that a view is on, and Buffers about its references. A mask of
--     screens is a list of bits, and a signed coordinate is its 32 bits.
--   Each component's Tests applies its theorems at concrete states.
--
-- How C is written down. A pointer to a struct that is freed at some time is an address, a place on
-- a list or an option, and each model says what a read after that does: in Workspace it is a fault,
-- `none`; in Activation a pointer that finds no token is one, `none`; in Syncobj it sets `faulty`,
-- which nothing resets. What a client is sent is a list of events. An allocation, the answer of the
-- kernel, of the renderer, of pixman or of the random device, and the set of views are inputs, so
-- the theorems hold whatever they are. Reference counts in Workspace and counts of presses in
-- Bindings are 32-bit and wrap around; button presses that are lost add up, so what holds of all
-- sequences in Bindings is for fewer than 2 ^ 32 events. In Syncobj they are numbers, since one is
-- added for each live point, of which memory does not hold 2 ^ 32. The values of points are 64-bit
-- numbers, made of two 32-bit ones.
--
-- Loops are recursions on the list, or on the number of rounds left. The loop of
-- workspace_manager_finish takes as many rounds as there are managers, which is proved to be
-- enough; that of generate_token goes over the results of the reads, those of send_fd and
-- receive_fd over the answers of the kernel, so a device that is interrupted for ever is a list
-- with no end, which is left out. An address is not used again while something may still hold it,
-- except that a timeline may take the address of a freed one.
--
-- Not modelled: the texts in events, the links of the intrusive lists, the creation of globals and
-- resources that keep no state, and the parts of libswc/ that mostly call other libraries (drawing,
-- DRM, input devices, Xwayland). Of Syncobj one surface is modelled; others hold references in the same
-- way. Requests of Activation that do nothing are left out.
pub mod Activation
pub mod Bindings
pub mod Idle
pub mod Launch
pub mod Lock
pub mod Prelude
pub mod Subsurface
pub mod Surface
pub mod Syncobj
pub mod View
pub mod Workspace
