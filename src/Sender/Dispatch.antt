-- ===== src/Sender/Dispatch.antt =====
-- What the dispatch of a delayed message does on each branch.
use cloudpost.Prelude.{[], false, some, true, ◌++◌, ◌∷◌, ◌≡◌}
use cloudpost.Text.{Text}
use cloudpost.Mailstore.Scheduled.{delete_scheduled_row}
use cloudpost.Mailstore.Schema.{ScheduledMessage, Store, read_file}
use cloudpost.Sender.Queue.{Outbound, QueueItem, pending}

-- The last item of the queue is the message: its sender, its recipients, and its text on disk.
pub record Handed (o o' : Outbound) (m : ScheduledMessage) (raw : Text) : Type 0 where
  pub item : QueueItem
  pub items : o'.items ≡ o.items ++ item ∷ []
  pub from_is : item.from ≡ m.from_addr
  pub recipients_are : item.recipients ≡ m.recipients
  pub is_pending : item.status ≡ pending
  pub text : read_file item.data_path o'.files ≡ some raw

-- What became of a message whose row and text are there: it was handed over and its row is gone,
-- or the disk is full and its row, the queue and the files are as they were.
pub data Fate (s : Store) (o : Outbound) (m : ScheduledMessage) (raw : Text) (p : Store × Outbound)
    : Type 0 where
  handed :
      o.disk_full ≡ false
      → p.0 ≡ delete_scheduled_row s m.id
      → Handed o p.1 m raw
      → Fate s o m raw p
  kept : o.disk_full ≡ true → p.0 ≡ s → p.1.items ≡ o.items → p.1.files ≡ o.files → Fate s o m raw p
