-- ===== src/Lib.antt =====
-- vcli runs small programs against a screen: a daemon keeps them in a store, and a scheduler
-- thread captures a frame at every tick, evaluates predicates on it and sends input.
--
-- The parts and their files:
--   Core        the program document and the events (crates/vcli-core/src): ProgramState with
--               is_terminal, as_str and from_str; predicates, steps, watches, triggers; EventData.
--               Canonical is canonicalize, Sha256 predicate_hash and sha256_hex of canonical.rs.
--   Runtime     crates/vcli-runtime/src. Arbiter is resolve; Watches is decide and after_fire; Body
--               is step_once, dispatch_action and trigger_fires; Expr is the target expressions;
--               Error the wire codes. Scheduler is scheduler.rs: State holds its fields, Commands
--               is drain_commands, and Watching, Firing, Stepping and Tick are the phases of
--               tick_once and the loop run_until_shutdown.
--   Perception  crates/vcli-perception/src. State is state.rs and cache.rs; Evaluation is
--               Perception::evaluate_named with logical.rs and elapsed.rs; ColorAt is color_at.rs
--               and the pixel access of frame_view.rs; Crop is crop_rgb and frame_to_rgb, PixelDiff
--               pixel_diff.rs, Template template.rs.
--   Dsl         crates/vcli-dsl/src. Expression is the grammar of target expressions; Predicates the
--               references and the search for cycles; Steps, Watches and Hint the modules of those
--               names (Steps with triggers.rs); Validation is lib.rs with hash.rs; Path and Error
--               what an error holds.
--   Store       crates/vcli-store/src. Rows is the tables of store.rs and events.rs; Resume, Gc and
--               Assets are the modules of those names.
--   Input       crates/vcli-input/src. KillSwitch is kill_switch.rs, Mock the recording sink of mock.rs.
--   Ipc         crates/vcli-ipc/src. Frame is the length-prefixed frames of frame.rs.
--   Daemon      crates/vcli-daemon/src. Persist is the event pump, Startup the recovery's events,
--               Reload reload_waiting_programs, Assets is materialize_template_assets, Requests
--               the requests and responses of crates/vcli-ipc/src/wire; Service is the handler's
--               state with the payloads of its errors, Handler its work for each request, and
--               Streams its event streams.
--   Prelude     tests, lists, maps, machine integers; Examples runs the code on concrete data.
--
-- How they interact: the scheduler's World holds the perception state, the inputs that were sent,
-- the number of reads of the clock and the events that were emitted; the pump of the daemon turns
-- those events into rows of the store, and after a restart the store's recovery turns rows into
-- events again. The handler validates a submission, stores it and its images, and gives the
-- scheduler a command. Env answers from outside: the time of each read of the clock, what the
-- operating system says to an input, and the perception façade, whose own model is
-- Perception.Evaluation. A run is a list of turns, each with the commands that had arrived and
-- the captured frame, or none where the capture failed.
--
-- Hash maps are association lists in the order of iteration. A program id is the number of its
-- UUID. i64 operations saturate at the bounds of i64, i32 operations wrap at 32 bits, an f64 is
-- its bit pattern and is never computed with. The tables of the store are lists of rows, and a
-- statement is a function of them; errors of SQLite and of the file system do not occur.
--
-- Fuel: the evaluation of predicates recurses through names, and the search for cycles is a loop;
-- the number of names is enough for the first in an accepted program, and two rounds for each
-- name with one for each edge for the second. The padding of SHA-256 stops within 64 rounds. The
-- loops over the pixels of an image count down, and every other loop is a recursion on a list.
--
-- Not modelled: the JSON of programs, events and messages (arguments of Dsl.Validation and of the
-- record Host of Daemon.Handler, as the hash of a predicate is; the hash of a JSON value is
-- Core.Sha256), what the image libraries compute (arguments of Perception.PixelDiff and
-- Perception.Template), the sockets of IPC, the process management of the daemon, the platform
-- back ends, the command line. The evaluators of the screen are an argument of
-- Perception.Evaluation, as the trait Evaluator is in the code, and stand beside it.
pub mod Prelude
pub mod Core
pub mod Store
pub mod Daemon
pub mod Perception
pub mod Dsl
pub mod Input
pub mod Ipc
pub mod Runtime
pub mod Examples
