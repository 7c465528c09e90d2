-- ===== src/Daemon/Streams/History.antt =====
-- crates/vcli-daemon/src/handler.rs: which stored events the logs of a program show.
use vcli.Prelude.{
  ℕ, zero, suc, ◌≤◌, ◌<◌, ◌≡◌, refl, Bool, false, Option, some, List, [], ◌∷◌, map, arith, ltb,
  ◌==◌, length, keep, All, ℤ,
}
use vcli.Core.Program.{ProgramId}
use vcli.Store.Rows.{Store, StoredEvent, stream_events, take_events}
use vcli.Daemon.Requests.{RequestId}
use vcli.Daemon.Streams.{
  event_frame, passes, Received, StreamOp, send_history, stream_frames, handle_stream,
}

-- A client that reads everything gets a frame for each event that passes, in the order of the rows.
send_history-passes :
    (id : RequestId) (filter : Option ProgramId) (accepted : ℕ) (rows : List StoredEvent)
    → length (keep (passes filter) rows) ≤ accepted
    → send_history id filter accepted rows
      ≡ map (λ row. event_frame id row.event) (keep (passes filter) rows)
unfolding send_history
send_history-passes id filter accepted [] h = refl
send_history-passes id filter zero (row ∷ rows) h =
    ground (arith, send_history-passes id filter zero rows)
send_history-passes id filter (suc accepted) (row ∷ rows) h = ground (
  arith,
  send_history-passes id filter accepted rows,
  send_history-passes id filter (suc accepted) rows,
)

keep-positive :
    (rows : List StoredEvent) → All (λ e. 0 < e.id) rows → keep (λ e. ltb 0 e.id) rows ≡ rows
keep-positive [] h = refl
keep-positive (row ∷ rows) h = ground (arith, keep-positive rows h.1)

kept_bound :
    (p : StoredEvent → Bool) (n : ℕ) (rows : List StoredEvent)
    → length (keep p (take_events n rows)) ≤ length rows
kept_bound p zero rows = omega arith
kept_bound p (suc n) [] = omega arith
kept_bound p (suc n) (row ∷ rows) = ground (arith, kept_bound p n rows)

-- The logs of a program, without following, are its events among the first 10000 rows of the whole
-- table, one frame for each and in their order; later events are not shown.
pub logs-first :
    (id : RequestId) (k : ProgramId) (s : Store) (now : ℤ) (accepted : ℕ) (received : List Received)
    → All (λ e. 0 < e.id) s.events
    → length s.events ≤ accepted
    → handle_stream id (StreamOp.logs k false) s now accepted received
      ≡ map
          (λ row. event_frame id row.event)
          (keep (λ row. k == row.program_id) (take_events 10000 s.events))
unfolding handle_stream stream_frames stream_events
logs-first id k s now accepted received h room =
    rw (stream_events, keep-positive s.events h)
      (send_history-passes id (some k) accepted (take_events 10000 s.events)
        (omega (arith, kept_bound (λ row. k == row.program_id) 10000 s.events)))
