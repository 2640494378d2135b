-- ===== src/Mailstore/Scheduled.antt =====
-- The delayed messages of internal/mailstore/scheduled.go. ScheduleSend makes an empty file that
-- its caller fills; both are one step here.
use cloudpost.Prelude.{
  Bool, List, [], any, find_first, if◌then◌else◌, keep, leb, none, not, some, sort_by, ℕ, ◌&&◌,
  ◌++◌, ◌+◌, ◌==◌, ◌||◌, ◌∷◌,
}
use cloudpost.Text.{Text}
use cloudpost.Mailstore.Folders.{account_id_is}
use cloudpost.Mailstore.Schema.{
  Result, ScheduledMessage, Store, constraint, err, from_option, no_rows, no_space, ok, remove_file,
}

unfoldable pub schedule_send :
    Store → ℕ → Text → List Text → Text → ℕ → Text → Store × Result (ℕ × ℕ)
schedule_send s account from rcpts subject send_at raw =
    let path = s.next_scheduled_file in
    let s1 = record s { next_scheduled_file = path + 1 } in
    if s.disk_full
    then (s1, err no_space)
    else if any (account_id_is account) s.accounts
    then (
      record s1 {
        scheduled_files = (path, raw) ∷ s.scheduled_files;
        scheduled =
            s.scheduled
            ++ (record {
              id = s.next_scheduled;
              account_id = account;
              from_addr = from;
              recipients = rcpts;
              subject = subject;
              data_path = path;
              send_at = send_at;
              created_at = s.clock;
            }
                ∷ []);
        next_scheduled = s.next_scheduled + 1;
      },
      ok (s.next_scheduled, path),
    )
    else (s1, err constraint)

abbrev sooner : ScheduledMessage → ScheduledMessage → Bool
sooner m n = leb m.send_at n.send_at

-- Account 0 stands for all accounts.
unfoldable pub list_scheduled : Store → ℕ → List ScheduledMessage
unfolding sort_by
list_scheduled s account =
    sort_by sooner (keep (λ m. account == 0 || m.account_id == account) s.scheduled)

unfoldable pub get_scheduled : Store → ℕ → Result ScheduledMessage
get_scheduled s id = from_option no_rows (find_first (λ m. m.id == id) s.scheduled)

abbrev pub own_scheduled : ℕ → ℕ → ScheduledMessage → Bool
own_scheduled account id m = m.id == id && m.account_id == account

-- Removes the row and its file, so that it is never sent.
unfoldable pub cancel_scheduled : Store → ℕ → ℕ → Store × Result (Unit {0})
cancel_scheduled s account id = elim (find_first (own_scheduled account id) s.scheduled) [
  | none ↦ (s, err no_rows)
  | some m ↦ (
    record s {
      scheduled_files = remove_file m.data_path s.scheduled_files;
      scheduled = keep (λ n. not (own_scheduled account id n)) s.scheduled;
    },
    ok tt,
  )
]

-- Those whose time has come, the soonest first.
unfoldable pub due_scheduled : Store → ℕ → List ScheduledMessage
unfolding sort_by
due_scheduled s now = sort_by sooner (keep (λ m. leb m.send_at now) s.scheduled)

-- Removes the row and the file after the dispatch.
unfoldable pub delete_scheduled_row : Store → ℕ → Store
delete_scheduled_row s id = record s {
  scheduled_files = elim (find_first (λ m. m.id == id) s.scheduled) [
    | none ↦ s.scheduled_files
    | some m ↦ remove_file m.data_path s.scheduled_files
  ];
  scheduled = keep (λ m. not (m.id == id)) s.scheduled;
}
