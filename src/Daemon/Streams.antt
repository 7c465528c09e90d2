-- ===== src/Daemon/Streams.antt =====
-- crates/vcli-daemon/src/handler.rs, crates/vcli-ipc/src/wire/stream.rs: the event streams. A client
-- that goes away is the number of the frames that it still accepts.
use vcli.Prelude.{
  ℕ, zero, suc, ◌-◌, ◌^◌, Bool, true, false, Option, none, some, List, [], ◌∷◌, ltb, ◌==◌,
  if◌then◌else◌, ℤ,
}
use vcli.Core.Program.{ProgramId}
use vcli.Core.Event.{Event, stream_dropped, program_id_of}
use vcli.Store.Rows.{Store, StoredEvent, stream_events}
use vcli.Daemon.Requests.{RequestId}
pub mod History

pub data StreamKind : Type 0 where
  events trace : StreamKind

-- A frame without the trace record, which the daemon never sends.
pub record StreamFrame : Type 0 where
  pub id : RequestId
  pub stream : StreamKind
  pub ended : Bool
  pub event : Option Event

-- `StreamFrame::event` and `StreamFrame::end_of_stream`.
abbrev pub event_frame : RequestId → Event → StreamFrame
event_frame id e = record { id = id; stream = events; ended = false; event = some e }

abbrev pub end_of_stream : RequestId → StreamKind → StreamFrame
end_of_stream id kind = record { id = id; stream = kind; ended = true; event = none }

-- `filter_program.is_some_and(|p| p != row.program_id)`, negated.
abbrev pub passes : Option ProgramId → StoredEvent → Bool
passes none row = true
passes (some k) row = k == row.program_id

-- `program_id_of(&ev.data) != Some(p)`, negated.
abbrev pub is_about : ProgramId → Option ProgramId → Bool
is_about k none = false
is_about k (some j) = j == k

abbrev pub passes_event : Option ProgramId → Event → Bool
passes_event none e = true
passes_event (some k) e = is_about k (program_id_of e.content)

-- What the broadcast channel gives a subscriber.
pub data Received : Type 0 where
  event : Event → Received
  lagged : ℕ → Received
  closed : Received

-- `u32::try_from(n).unwrap_or(u32::MAX)`
abbrev pub to_u32 : ℕ → ℕ
to_u32 n = if ltb n (2 ^ 32) then n else 2 ^ 32 - 1

abbrev pub dropped_event : ℤ → ℕ → Event
dropped_event now n = record { at = now; content = stream_dropped (to_u32 n) now }

module _ (id : RequestId) (filter : Option ProgramId) where
  -- The loop over the stored events.
  unfoldable pub send_history : ℕ → List StoredEvent → List StreamFrame
  send_history accepted [] = []
  send_history zero (row ∷ rows) =
      let rest = send_history zero rows in if passes filter row then [] else rest
  send_history (suc accepted) (row ∷ rows) =
      let sent = send_history accepted rows in
      let passed_over = send_history (suc accepted) rows in
      if passes filter row then event_frame id row.event ∷ sent else passed_over

  -- The loop over the broadcast events. It waits where `received` ends.
  unfoldable pub send_live : ℤ → ℕ → List Received → List StreamFrame
  send_live now accepted [] = []
  send_live now accepted (closed ∷ more) = []
  send_live now zero (lagged n ∷ more) = []
  send_live now (suc accepted) (lagged n ∷ more) =
      event_frame id (dropped_event now n) ∷ send_live now accepted more
  send_live now zero (event e ∷ more) =
      let rest = send_live now zero more in if passes_event filter e then [] else rest
  send_live now (suc accepted) (event e ∷ more) =
      let sent = send_live now accepted more in
      let passed_over = send_live now (suc accepted) more in
      if passes_event filter e then event_frame id e ∷ sent else passed_over

  -- `DaemonHandler::stream_events`
  unfoldable pub stream_frames : Store → ℤ → ℕ → List Received → Bool → List StreamFrame
  unfolding send_history send_live stream_events
  stream_frames s now accepted received false = send_history accepted (stream_events s 0 10000)
  stream_frames s now accepted received true = send_live now accepted received

pub data StreamOp : Type 0 where
  events : Bool → StreamOp
  logs : ProgramId → Bool → StreamOp
  trace : ProgramId → StreamOp
  other : StreamOp

-- `DaemonHandler::handle_stream`
unfoldable pub handle_stream :
    RequestId → StreamOp → Store → ℤ → ℕ → List Received → List StreamFrame
unfolding stream_frames
handle_stream id (StreamOp.events follow) s now accepted received =
    stream_frames id none s now accepted received follow
handle_stream id (StreamOp.logs k follow) s now accepted received =
    stream_frames id (some k) s now accepted received follow
handle_stream id (StreamOp.trace k) s now accepted received = []
handle_stream id StreamOp.other s now zero received = []
handle_stream id StreamOp.other s now (suc accepted) received =
    end_of_stream id StreamKind.events ∷ []
