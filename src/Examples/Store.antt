-- ===== src/Examples/Store.antt =====
-- The database's writer and reader on a small connection that can refuse inserts and commits.
use telemetry_testbed.Base.{
  ℕ, zero, suc, ◌+◌, ◌%◌, ◌^◌, ◌≡◌, ◌≤◌, ◌<◌, refl, List, [], ◌∷◌, ◌++◌, map, reverse, take, Option,
  none, some, Bool, true, false, codes, arith, length, text_eq, if◌then◌else◌,
}
use telemetry_testbed.Base.Int.{pos}
use telemetry_testbed.Types.{TelemetryState}
use telemetry_testbed.Db.Row.{Value, null, bind_state, select, state_row}
use telemetry_testbed.Db.Sqlite.{Sqlite, Journal}
use telemetry_testbed.Db.Buffer.{StrBuf, fresh, sb_reserve, sb_append}
use telemetry_testbed.Db.Buffer.Growth.{sb_append-Fits}
use telemetry_testbed.Db.History.{reply, items_head, clamp_limit, db_reader_history_last_json}
use telemetry_testbed.Db.History.Contents.{joined, sample_json, history-joined}
use telemetry_testbed.Db.History.Replay.{IsStorable, replay-live}
use telemetry_testbed.Gateway.Live.{live_json}
use telemetry_testbed.Gateway.Writer.{
  Stats, write_batch, insert_all, settle, db_writer_begin, db_writer_commit, db_writer_insert_state,
}
use telemetry_testbed.Gateway.Writer.Losses.{run_writer, commit_refused-blocks}
use telemetry_testbed.Examples.Sample.{plenty, whole, parked, moving}

abbrev pub Cells : Type 0
Cells = List (Value ℕ)

-- `room` inserts succeed, and then no more; `busy` makes every COMMIT fail.
pub record Disk : Type 0 where
  pub rows : List Cells
  pub opened : Option (List Cells)
  pub room : ℕ
  pub busy : Bool

-- The statements that it knows.
pub data Command : Type 0 where
  begin commit rollback other : Command

unfoldable pub command : List ℕ → Command
unfolding text_eq
command sql =
    if text_eq sql (codes "BEGIN IMMEDIATE;")
    then begin
    else if text_eq sql (codes "COMMIT;")
    then commit
    else if text_eq sql (codes "ROLLBACK;")
    then rollback
    else other

abbrev pub begin_on : Disk → Option (List Cells) → Disk × Bool
begin_on d none = (record d { opened = some [] }, true)
begin_on d (some new) = (d, false)

abbrev pub commit_on : Disk → Option (List Cells) → Bool → Disk × Bool
commit_on d none busy = (d, false)
commit_on d (some new) true = (d, false)
commit_on d (some new) false = (record d { rows = d.rows ++ new; opened = none }, true)

abbrev obey : Disk → Command → Disk × Bool
obey d begin = begin_on d d.opened
obey d commit = commit_on d d.opened d.busy
obey d rollback = (record d { opened = none }, true)
obey d other = (d, false)

abbrev pub write_on : Disk → List (Value ℕ) → Option (List Cells) → ℕ → Disk × Bool
write_on d v none room = (d, false)
write_on d v (some new) zero = (d, false)
write_on d v (some new) (suc room) =
    (record d { opened = some (new ++ (v ∷ [])); room = room }, true)

-- An insert that finds no room rolls the transaction back by itself; outside a transaction there is room
-- again.
abbrev insert_alone : Disk → List (Value ℕ) → Option (List Cells) → ℕ → Disk × Bool
insert_alone d v none room = (record d { rows = d.rows ++ (v ∷ []) }, true)
insert_alone d v (some new) zero = (record d { opened = none }, false)
insert_alone d v (some new) (suc room) =
    (record d { opened = some (new ++ (v ∷ [])); room = room }, true)

abbrev fragile : Sqlite ℕ
fragile = record {
  Conn = Disk;
  exec = λ d sql. obey d (command sql);
  insert = λ d v. insert_alone d v d.opened d.room;
  user_version = λ d. some (pos 2);
  table_info = λ d table. none;
}

fragile-Journal : Journal fragile
unfolding command
fragile-Journal = record {
  rows = λ d. d.rows;
  opened = λ d. d.opened;
  begin_done = λ d e. ground arith;
  begin_refused = λ d e. ground arith;
  insert_done = λ d new v o e. ground arith;
  insert_refused = λ d new v o e. ground arith;
  autocommit_done = λ d v o e. ground arith;
  autocommit_refused = λ d v o e. ground arith;
  commit_done = λ d new o e. ground arith;
  commit_refused = λ d new o e. ground arith;
  rolled_back = λ d. (refl, refl);
}

abbrev roomy : Disk
roomy = record { rows = (null ∷ []) ∷ []; opened = none; room = 10; busy = false }

abbrev full : Disk
full = record roomy { room = 1 }

abbrev locked : Disk
locked = record roomy { busy = true }

abbrev idle : Stats
idle = record {
  rx_msgs = 2;
  rx_bytes = 300;
  db_rows = 0;
  commit_count = 0;
  commit_ns_sum = 0;
  commit_ns_max = 0;
}

abbrev batch : List (TelemetryState ℕ)
batch = parked ∷ moving ∷ []

-- Of three samples on a full disk the first is inserted, the second fails and the third is stored.
abbrev batch_of_three : List (TelemetryState ℕ)
batch_of_three = parked ∷ moving ∷ parked ∷ []

third_stored :
    (write_batch whole fragile plenty full idle batch_of_three 10 25).conn.rows
    ≡ full.rows ++ (bind_state whole parked ∷ [])
unfolding write_batch insert_all settle db_writer_begin db_writer_commit db_writer_insert_state
    command text_eq
third_stored = refl

-- The batch of two is stored.
batch_stored : length (write_batch whole fragile plenty roomy idle batch 10 25).conn.rows ≡ 3
unfolding write_batch insert_all settle db_writer_begin db_writer_commit db_writer_insert_state
    command text_eq
batch_stored = refl

locked_begins : (db_writer_begin whole fragile locked).1 ≡ true
unfolding db_writer_begin command text_eq
locked_begins = refl

locked_inserts : (insert_all whole fragile (db_writer_begin whole fragile locked).0 batch).1 ≡ true
unfolding insert_all db_writer_begin db_writer_insert_state command text_eq
locked_inserts = refl

abbrev held_back : Disk × Bool
held_back =
    db_writer_commit whole fragile
      (insert_all whole fragile (db_writer_begin whole fragile locked).0 batch).0

locked_keeps :
    (held_back.1 ≡ false)
    × (fragile-Journal.opened held_back.0 ≡ some (map (bind_state whole) batch))
unfolding insert_all db_writer_begin db_writer_insert_state db_writer_commit command text_eq
    fragile-Journal
locked_keeps = (refl, refl)

commit_refused-blocks_example :
    let w = write_batch whole fragile plenty locked idle batch 10 25 in
    let z = run_writer whole fragile plenty w.conn w.stats ((batch, 30, 40) ∷ []) in
    (w.stats.db_rows ≡ (idle.db_rows + length batch) % 2 ^ 64)
    × (w.sent ≡ map (live_json whole) batch)
    × (fragile-Journal.rows z.conn ≡ fragile-Journal.rows locked)
    × (z.stats ≡ w.stats)
    × (z.sent ≡ [])
commit_refused-blocks_example =
    commit_refused-blocks whole fragile fragile-Journal plenty locked idle batch 10 25
      ((batch, 30, 40) ∷ []) (map (bind_state whole) batch) (λ n. refl) locked_begins locked_inserts
      locked_keeps.0 locked_keeps.1

abbrev stored : List Cells
stored = select (state_row whole moving) ∷ select (state_row whole parked) ∷ []

abbrev latest : ℕ → Option (List Cells)
latest limit = some (take limit stored)

history-joined_example :
    (db_reader_history_last_json whole plenty latest (pos 2)
      ≡ reply (
          items_head
          ++ (joined (reverse (map (sample_json whole) (take (clamp_limit (pos 2)) stored)))
              ++ codes "]}")))
    × (1 ≤ clamp_limit (pos 2))
    × (clamp_limit (pos 2) ≤ 5000)
history-joined_example =
    history-joined whole plenty (λ n. refl) latest (pos 2) stored (unfold clamp_limit in refl)

parked-IsStorable : IsStorable whole parked
parked-IsStorable = record {
  seq_small = omega arith;
  status_small = omega arith;
  timestamp_small = omega arith;
  acc_real = ((refl, refl), (refl, refl), (refl, refl));
  gyro_real = ((refl, refl), (refl, refl), (refl, refl));
  tilt_real = ((refl, refl), (refl, refl), (refl, refl));
  rpm = ((omega arith, omega arith), (omega arith, omega arith));
  temperature = ((omega arith, omega arith), (omega arith, omega arith));
  voltage = ((omega arith, omega arith), (omega arith, omega arith));
  current = ((omega arith, omega arith), (omega arith, omega arith));
}

replay-live_example : sample_json whole (select (state_row whole parked)) ≡ live_json whole parked
replay-live_example = replay-live whole parked parked-IsStorable

abbrev grown : StrBuf
grown = record { text = codes "one"; cap = 1024 }

grown_append : sb_append plenty fresh (codes "one") ≡ some grown
unfolding sb_append sb_reserve
grown_append = refl

sb_append-Fits_example : (grown.text ≡ fresh.text ++ codes "one") × (length grown.text < grown.cap)
sb_append-Fits_example = sb_append-Fits plenty fresh (codes "one") grown (omega arith) grown_append
