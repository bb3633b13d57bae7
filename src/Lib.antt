-- ===== src/Lib.antt =====
-- Agent Room, its clients and its desktop program: a model of what they compute and decide.
--
-- The main client is frontend/client/src. Its App composes four hooks and the views over them:
--   * hooks/useChat.ts keeps the conversation: a send posts a run, opens an event stream, and the
--     stream's events drive the plan, the timeline, the approvals and the final answer;
--   * hooks/useWorkspace.ts keeps the project canvas and refreshes all of it after each operation;
--   * hooks/useAuth.ts keeps the session; hooks/useWebSocket.ts is a stub, since the run's timeline
--     comes over the event stream of useChat.ts.
-- components/Chat.tsx composes messages, components/TaskGraph.tsx draws the canvas, ApprovalCards.tsx,
-- WorkspaceInspector.tsx, RuntimePanel.tsx and RuntimeSettings.tsx are the other views. frontend/src is
-- the first version of the client, with a WebSocket in place of the event stream.
--
-- The desktop program sets a computer up and opens the client. desktop/main.mjs is its main process: it
-- keeps the encrypted settings (session, user, pending authorization, chosen and paired workspace),
-- talks to the cloud, runs Git and the installers, and serves the calls that desktop/preload.cjs
-- offers. desktop/renderer/app.mjs is the page with the setup screens, which makes those calls.
--
-- Files:
--   * Prelude: shared names, list and text functions. Js: JSON values with truthiness, `===`, spreads,
--     templates; thrown values; the outcomes of requests. Types: types.ts.
--   * Plan, Timeline: normalizePlan and normalizeTimelineEvent of useChat.ts.
--   * Session: useChat.ts. Events is appendEvent, Approvals the approvals, Send sendMessage in its two
--     halves around the request, Stage the stage; System puts them together as `step` over the actions
--     of the user and of the environment. Frames, Bounds, Lifecycle, History and Ends are the proofs.
--   * Composer: Chat.tsx, with Attachments (selectAttachments), Answer (latestAnswer and capture);
--     Budget and Lost are proofs.
--   * Workspace: useWorkspace.ts, with Refresh (`refresh`), Operations (the requests and
--     operations), Changes (the operations as one), Life (all of it over time); Selection, Loading and
--     Failing are the proofs.
--   * Spider: fileSpiderPositions of TaskGraph.tsx; Sets, Search, Cover, Fuel and Partition prove that
--     the component search splits the files, Imports, Together, Joined and Connected that its groups
--     are the components of the imports; Places, Placed and Grid are the
--     placement. Canvas: the rest of TaskGraph.tsx.
--   * Layout: App.tsx. Cards: ApprovalCards.tsx, WorkspaceInspector.tsx, RuntimePanel.tsx. Settings:
--     RuntimeSettings.tsx. Hooks: useComposition.ts with components/ui/input.tsx, useAuth.ts,
--     ThemeContext.tsx, ManusDialog.tsx, ErrorBoundary.tsx, useMobile.tsx, usePersistFn.ts.
--   * Ui: the stateful parts of components/ui (sidebar, carousel, chart) and components/Map.tsx.
--   * Legacy: frontend/src (useChat.ts, useWebSocket.ts and the views).
--   * Desktop: main.mjs. Outside is the host; the root has the state and the monad with readState,
--     writeState and patchState; Paths, Commands (Git, the installer), Cloud (requests, cookie), Clone, Services
--     (Serena, Graphiti, the runtime's status), Setup (pairing, repair), Pages (window, start), Status,
--     Calls (the other handlers and `handle`). Account is the abstract account with the moves that each call may make; Keeps and its
--     children are the rules for what a run keeps, Moves and Refinement prove the refinement; Errors,
--     Guards, Tidy, Claims and Adoption are the other proofs.
--   * Renderer: app.mjs, with Repositories, Authorization and Setup; Page puts its functions together, with
--     polls that may overlap. Elsewhere, Attended and Rows are proofs on the page, Handover on the page
--     with the main process.
--   * Examples: the theorems at concrete inputs.
--
-- Names follow the source in snake case. A handler is a function from state to state: React applies the
-- queued updates of a handler in their order. An `await` splits a handler in two functions, and what the
-- handler closed over is carried between them (Session.Send.Pending, Session.Stream). Requests, clocks,
-- the desktop bridge, the carousel engine and floating-point geometry are arguments. Exceptions are
-- values. Drafts and attachments are lists of UTF-16 code units, since Chat.tsx measures them; other
-- texts are native strings. Numbers from JSON are the naturals that the protocol sends; pointer
-- positions are naturals, a negative width being clamped like zero.
--
-- Electron, Node, the programs they start and the cloud are the record Desktop.Outside.Host, whose answers
-- depend on all that was asked before (its History). A handler of the main process runs from its
-- call to its end, so that two handlers are not interleaved; the functions of the page are cut at their
-- awaits. A write of the settings that fails leaves the old file, one cut short, which
-- cannot be read, or the new one, as the host has it (left_over); nothing is assumed of which. `Promise.all` runs its parts in order.
--
-- Fuel: the component search of Spider runs on one unit more than the number of files, which
-- Spider.Fuel shows to be enough; `show` has one unit more than the number it prints, and a square
-- root as many as its argument.
--
-- Not modelled: markup, styles and icons; the kit's other wrappers of Radix primitives; mounting, build
-- and server files; the debug collector, a copy of the hosting platform's tool; the Python backend and
-- the local runtime, whose answers are arguments; in desktop/main.mjs the smoke-test bridge, the menu
-- and the activate event.
mod Prelude
pub mod Js
pub mod Types
pub mod Plan
pub mod Timeline
pub mod Session
pub mod Composer
pub mod Workspace
pub mod Spider
pub mod Canvas
pub mod Layout
pub mod Hooks
pub mod Cards
pub mod Settings
pub mod Ui
pub mod Legacy
pub mod Desktop
pub mod Renderer
mod Examples
