-- ===== src/Lib.antt =====
-- Verification of newapi-box, the relay that serves one configured upstream to clients of four
-- protocols (OpenAI Chat, OpenAI Responses, Claude Messages, Gemini) and has a console to edit it.
--
-- The parts and how they interact. The console's save handler asks the store to normalize,
-- validate, write and publish a configuration and then has the relay build its runtime from it. A
-- client's request is matched to a protocol by its path, checked against the runtime's keys,
-- decoded, converted and sent upstream; the reply is relayed, converted as a whole, or pumped event
-- by event through the converter; and one entry of the history records it. While requests and saves
-- come between one another, each request keeps the runtime that it loaded at its start. The server
-- is started by main, or inside the desktop version, whose window can hide in the tray.
--
--   Text        strings as lists of code points, and what the code uses of package strings
--   Config      internal/config/config.go: the data, Normalize, Clone, the lookups, the paths;
--               Config/Validate has Validate and RequestTimeout, Config/Mask MaskedAPIKey,
--               Config/File writeFile and Config/Store the store of internal/config/store.go,
--               Config/Load the start from a file
--   Protocol    internal/protocol: surface.go in Protocol/Surface, stream.go in Protocol/Stream,
--               sse.go in Protocol/Sse
--   Proxy       internal/proxy: error.go in Proxy/Errors, events.go in Proxy/Events, runtime.go
--               and the admission of proxy.go in Proxy/Admit, the request side of proxy.go in
--               Proxy/Session and Proxy/Serve, response.go in Proxy/Reply and Proxy/Pump, media.go in
--               Proxy/Media
--   Admin       internal/admin/admin.go: the views, the key check, the save, the probe and the
--               routes; Admin/Console has the whole of ServeHTTP with ui.go, as one function of the
--               shared state and a request
--   Listen      main.go: the address that the server binds
--   Startup     main.go: main up to the point where it serves; startServer of desktop/shell/main.go
--   System      the state that the handlers of internal/proxy/proxy.go and internal/admin/admin.go
--               share, and the steps in which concurrent requests and saves reach it
--   Desktop     desktop/shell: tray.go in Desktop/Tray and Desktop/Tip, main.go in Desktop/Wait and
--               Desktop/Boot
--   Examples    the theorems at concrete inputs
--
-- State is passed explicitly. A store is a record of its path, its snapshot and the disk; Save
-- returns the next store and an error or none. The answers of the operating system to a write are a
-- record of Booleans, and a run of writeFile is the list of the disk's states, so that a crash is a
-- prefix of it. A handler returns the reply, the requests that went upstream and the event that was
-- recorded. Errors are values: a message is a constructor with the texts that fill its format.
--
-- Strings of JSON and of headers are lists of numbers; for bodies and streams these are bytes. A Go
-- map is an association list in its iteration order; Config/Entries has the map itself, the multiset
-- of its entries, for what does not depend on the order. Counters of 64 bits wrap; sizes are natural
-- numbers. Converters (relaykit), encoding/json, time.ParseDuration, net.SplitHostPort,
-- http.CanonicalHeaderKey, the upstream and the clock are arguments. The loop of streamResponse
-- runs on fuel, one more than the lines of the upstream's body; each round consumes a line, so the
-- fuel is enough. A stream's meaning is stated as a relation between the upstream's events and the
-- client's. The wait for the desktop version's server runs on fuel too: 51 rounds, since each sleep
-- takes 100 ms at least and the wait has 5 s; when a dial connects and how long it takes are
-- arguments.
--
-- The running server is a step relation. A relayed request has two steps, the load of the runtime
-- and the rest; a save has four, the new configuration, Save, and Apply's swap of the runtime and its
-- close of the previous one. Save is one step because the store's mutex is held throughout. The tray
-- is a function of a list of the window's messages; what the calls of Windows and WebView2 do is in
-- the fields that they change, and the procedure that the window had before is an argument.
-- Admin/Console has the same handlers as one function, for a request that no other overlaps. A
-- runtime's HTTP client is a record of its settings, which the call upstream takes; closing a runtime
-- puts it on a list.
--
-- Not modelled: the context of a request, by which a client that goes away cancels the read of the
-- upstream's body (that read may fail at any point, and so may the writes to the client, but the
-- one does not follow from the other); temporary files that earlier writes could not remove; what
-- the HTTP client does with the settings of a runtime, the bytes of rendered error messages and of
-- JSON, logging but for the notices of main, the shutdown on a signal, the drawing of the window
-- and the menu, and the libraries in relaykit (the converters, a copy of the code of another
-- project, whose calls are parameters) and vendor.
mod Prelude
pub mod Text
pub mod Config
pub mod Protocol
pub mod Proxy
pub mod Admin
pub mod Listen
pub mod Desktop
pub mod Startup
pub mod System
mod Examples
