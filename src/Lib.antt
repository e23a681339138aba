-- ===== src/Lib.antt =====
-- yllmd: a daemon that answers generation requests of local clients with language models. A client
-- sends lines of JSON over a socket; the daemon validates a request, resolves its target to a
-- configured model, queues it, and one worker hands it to a provider, which drives a runner process
-- by a binary protocol and turns the runner's frames into events.
--
-- Which module models which part, with the paths from the repository's root:
--   * Protocol: internal/protocol/protocol.go. `Request` and its parts, `DecodeRequest` (Decoding),
--     the Validate methods of the model actions (Models), `ValidateGenerate` (Generation), the
--     specification of an accepted request (Accepted), and how the two compare (Sampling, Decides).
--   * Wire: internal/providers/local/runner_protocol.go, and `readRunnerFrames` of runner.go. Bytes
--     and UTF-8 (Bytes, Utf8, Text), the Generate message (Generate), what goes out (Writer), one
--     frame (Frame) and a whole stream of them (Stream).
--   * Runner: internal/providers/local/runner.go. The chat templates (Prompts), the options and the
--     prepared input (Options), how the limits of the two layers fit together (Sending), the choice
--     of a model in `Generate` with `sessionFor` (Startup, Choice), the loop of `run` with
--     `cancelAndDrain` from its `started` event on and `sendProviderError` (Answer), and what a
--     client sees of it (Provided, Relay).
--   * Registry: internal/models/registry.go. `NewRegistry` and `Resolve`; the routing with fallbacks
--     (Routing), for one profile (Resolution) and for any target (Targets).
--   * Daemon: internal/daemon/server.go. The answer of an error, the options of an answer; `prepare`,
--     the part of `enqueueGenerate` before the queue (Intake); the shared state and each critical
--     section (Queue); the interleavings of these as a step relation (Steps), with its invariant, its
--     order, its cancellations and one of its races; the loops of `runJob` and `runTextJob`
--     (Replies), and the text from a runner to a client of text mode (Texts); the actions on
--     installed models (Models), and what they refuse (Models/Guards); `installCatalogArtifact`
--     (Models/Artifacts), and what stands before it (Models/Gates).
--   * Disk: what the program uses of Go's `os` and `path/filepath` on a file system. Paths and what
--     stands at them (Paths, Find), actions with faults (Actions), what an action leaves alone
--     (Spares) and what it did when it returned (Returned, Outcomes).
--   * Store: internal/storage/models.go. The types; names and folders (Layout), files (Files),
--     activation and rollback (Activating), installs (Installing), deletions (Deleting), listings
--     (Listing); and what they do: cleaned names (Names, Places, Targets), the models apart (Spared,
--     Isolation), what is not deleted (Guards, Kept), the installed file (Verified), the link
--     (Activated, RolledBack).
--   * Download: internal/download/downloader.go. The tests of a request (Request), `Download` with
--     the partial file and its resumption, the file that it returns (Checked) and its size (Measured,
--     Sized).
--   * Licenses: internal/storage/licenses.go. The records of accepted licences, and how one is found
--     again (Recorded).
--   * Config: internal/config/config.go. The types with `IsEnabled`; `Validate` and what it calls
--     (Validation), and the routes of a configuration that it accepts (Routes).
--   * Catalog: the types and lookups of internal/catalog/catalog.go.
--   * Base: numbers, lists, results, floats, text, maps and paths that the parts share. Tests: runs
--     of the definitions at concrete inputs.
--
-- How the code is read. A Go string is a text where it is compared and a list of bytes where it is
-- measured or sent; `utf8_bytes` goes from one to the other. A `float64` is its 64 bits, with Go's
-- comparisons on them. An error is a constructor without the text of its message. A Go map is an
-- association list, whose order stands for the order of a range over the map. `time.Now` is an
-- argument of the one template that reads it, and the embedded catalogue is an argument of what reads
-- that.
--
-- What is given. JSON is the parameter `Json` of `decode_request`. The pipe to a runner is the
-- parameter `Writer`; `IsLawful` is the documented contract of `io.Writer`: it takes at most the
-- buffer and sends what it takes. What a runner writes is any list of bytes, and what `run` meets is
-- any list of arrivals; the text of its error is the parameter `message` of `provide`.
--
-- The disk is an association list from paths to nodes, with the faults that its operations will meet
-- and the texts that random names take. A path is the list of its components from the root, so a root
-- that is configured as a relative path is not modelled, nor is an install from a relative source
-- path. An operation returns, fails without an effect, or breaks off with a part of its effect;
-- modes, `Sync` and `Close` are left out. No link is followed but by `read_link`: the program follows
-- none of its own. JSON and SHA-256 are the parameter `Encodings` of the store; the answers of
-- `net/http` and `net/url` and the hash are the parameter `Outside` of a download; the JSON of an
-- acceptance is a `Codec`. A download that appends writes the file anew, with what it held before.
--
-- Bounds and fuel. The write loop takes the bytes that are left as fuel, since each round sends one
-- at least or stops; the frame reader takes one more than the bytes of its stream, since each frame
-- takes five at least. A `uint32` or `int32` is its value modulo 2^32, and a length prefix is written
-- modulo 2^32, as in the source.
--
-- Interleavings. A step of the daemon is one critical section, one move of the worker, a deadline, a
-- cancellation, the shutdown, or the `select` of a handler with all that follows it there
-- (`removeQueued` and the cancel of the job, where the queue is full or the context ended), in any
-- order; the handlers between their critical section and their `select` are the list `entering`.
-- `clearActive` and the cancel after it, at the end of a job, are one step. The events that a handler
-- and the worker write are listed per step; their order on one connection is not modelled.
--
-- Not modelled: the sockets and the processes; the hardware checks and the configuration generator
-- (internal/compatibility, internal/configgen); the progress reports of a download; the start of a
-- runner process (a parameter of `generate`) and the epoch and cooldown of a session at the beginning
-- of `run`; the call of the provider at the start of `runJob`; the dispatch of requests and the
-- listings of models and routes; the validation of the catalogue; the command line (cmd), which is
-- input and output.
pub mod Base
pub mod Wire
pub mod Disk
pub mod Store
pub mod Download
pub mod Licenses
pub mod Protocol
pub mod Config
pub mod Catalog
pub mod Registry
pub mod Runner
pub mod Daemon
pub mod Tests
