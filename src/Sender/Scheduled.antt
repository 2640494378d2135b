-- ===== src/Sender/Scheduled.antt =====
-- The dispatch of delayed messages: internal/sender/scheduled.go.
use cloudpost.Prelude.{List, Option, [], none, some, ℕ, ◌∷◌}
use cloudpost.Text.{Text}
use cloudpost.Mailstore.Scheduled.{delete_scheduled_row, due_scheduled, get_scheduled}
use cloudpost.Mailstore.Schema.{Result, ScheduledMessage, Store, err, ok, read_file}
use cloudpost.Sender.Queue.{Outbound, enqueue}

-- What is left of a message that was due: its row goes when the queue has it, or its file is lost.
abbrev pub dispatched : Store → ℕ → Outbound × Result ℕ → Store × Outbound
dispatched s id (o, ok _) = (delete_scheduled_row s id, o)
dispatched s id (o, err _) = (s, o)

abbrev pub dispatch_file : Store → Outbound → ScheduledMessage → Option Text → Store × Outbound
dispatch_file s o m none = (delete_scheduled_row s m.id, o)
dispatch_file s o m (some raw) = dispatched s m.id (enqueue o m.from_addr m.recipients raw)

abbrev pub dispatch_row :
    Store → Outbound → ScheduledMessage → Result ScheduledMessage → Store × Outbound
dispatch_row s o m (err e) = (s, o)
dispatch_row s o m (ok row) = dispatch_file s o m (read_file row.data_path s.scheduled_files)

unfoldable pub dispatch_one : Store → Outbound → ScheduledMessage → Store × Outbound
unfolding enqueue read_file delete_scheduled_row
dispatch_one s o m = dispatch_row s o m (get_scheduled s m.id)

unfoldable pub dispatch_each : Store → Outbound → List ScheduledMessage → Store × Outbound
dispatch_each s o [] = (s, o)
dispatch_each s o (m ∷ ms) = let next = dispatch_one s o m in dispatch_each next.0 next.1 ms

unfoldable pub process_scheduled : Store → Outbound → Store × Outbound
unfolding dispatch_each due_scheduled
process_scheduled s o = dispatch_each s o (due_scheduled s s.clock)
