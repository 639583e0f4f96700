-- ===== src/Examples/Pipeline.antt =====
-- A message on its way from the MQTT callback of src/app/telemetry_gateway.c to the table and the
-- history reply, over a database that refuses nothing.
use telemetry_testbed.Base.{
  ℕ, ◌%◌, ◌^◌, ◌≡◌, ◌≢◌, refl, List, [], ◌∷◌, ◌++◌, map, reverse, take, Option, none, some, Bool,
  true, false, arith, length, text_eq,
}
use telemetry_testbed.Base.Int.{pos}
use telemetry_testbed.Types.{TelemetryState, StateMessage}
use telemetry_testbed.Db.Row.{bind_state, columns, named, select}
use telemetry_testbed.Db.Sqlite.{Sqlite, Transactions}
use telemetry_testbed.Db.History.{reply, clamp_limit, db_reader_history_last_json}
use telemetry_testbed.Db.History.Replay.{IsStorable}
use telemetry_testbed.Gateway.Message.{
  telemetry_topic_state, decode_sample, default_state, with_header, with_sensors, with_motor,
  with_raw,
}
use telemetry_testbed.Gateway.Queue.{Node, Queue, store, empty, queue_push, queue_pop_batch}
use telemetry_testbed.Gateway.Queue.Refinement.{Holds, samples}
use telemetry_testbed.Gateway.Queue.Release.{release, Gone}
use telemetry_testbed.Gateway.Receive.{MqttMessage, Gateway, enqueue, on_message, count_received}
use telemetry_testbed.Gateway.Pipeline.{World, popping, finished, writing, wrote, writer_step, halt}
use telemetry_testbed.Gateway.Pipeline.Trace.{
  Trace, initial, batches, turn_at, Reach, start, next, arrive, work, stop, received_of,
  accepted_of,
}
use telemetry_testbed.Gateway.Pipeline.Ledger.{Ledger, in_hand, Reach-Ledger}
use telemetry_testbed.Gateway.Pipeline.Reliable.{Works, every_sample_stored}
use telemetry_testbed.Gateway.Pipeline.Drain.{writer_loop}
use telemetry_testbed.Gateway.Pipeline.Drain.Empty.{writer_loop-drains}
use telemetry_testbed.Gateway.Pipeline.Replies.{history_of, history_reply-accepted}
use telemetry_testbed.Gateway.Pipeline.Stop.{stop_releases}
use telemetry_testbed.Examples.Sample.{plenty, whole, bare}
use telemetry_testbed.Examples.Store.{
  Cells, Disk, Command, begin, commit, rollback, other, command, begin_on, commit_on, write_on,
}

abbrev obey_all : Disk → Command → Disk × Bool
obey_all d begin = begin_on d d.opened
obey_all d commit = commit_on d d.opened false
obey_all d rollback = (record d { opened = none }, true)
obey_all d other = (d, false)

abbrev pub endless : Sqlite ℕ
endless = record {
  Conn = Disk;
  exec = λ d sql. obey_all d (command sql);
  insert = λ d v. write_on d v d.opened 1;
  user_version = λ d. some (pos 2);
  table_info = λ d table. none;
}

pub endless-Transactions : Transactions endless
unfolding command
endless-Transactions = record {
  rows = λ d. d.rows;
  opened = λ d. d.opened;
  begin_done = λ d e. ground arith;
  begin_refused = λ d e. ground arith;
  insert_done = λ d new v o e. ground arith;
  insert_refused = λ d new v o e. ground arith;
  commit_done = λ d new o e. ground arith;
  commit_refused = λ d new o e. ground arith;
  rolled_back = λ d new o. ground arith;
}

endless-Works : Works endless endless-Transactions
unfolding command endless-Transactions
endless-Works = record {
  begin_works = λ d o. ground arith;
  insert_works = λ d new v o. ground arith;
  commit_works = λ d new o. ground arith;
}

abbrev pub fresh_disk : Disk
fresh_disk = record { rows = []; opened = none; room = 0; busy = false }

abbrev pub always_bare : List ℕ → Option (StateMessage ℕ)
always_bare payload = some bare

abbrev pub message : MqttMessage
message = record { topic = some telemetry_topic_state; payload = 1 ∷ 2 ∷ [] }

abbrev sample : TelemetryState ℕ
sample = decode_sample whole (pos 5) true (1 ∷ 2 ∷ []) bare

abbrev pub first_trace : Trace whole endless
first_trace = initial whole endless fresh_disk

abbrev loaded : Queue (TelemetryState ℕ)
loaded = record {
  heap = store (λ a. none) 8 (some (record { s = sample; next = 0 }));
  q_head = 8;
  q_tail = 8;
  q_len = 1;
  q_len_max = 1;
}

abbrev unloaded : Queue (TelemetryState ℕ)
unloaded = record loaded { heap = store loaded.heap 8 none; q_head = 0; q_tail = 0; q_len = 0 }

abbrev pub one_received : Gateway ℕ
one_received = record {
  running = true;
  queue = loaded;
  stats = record {
    rx_msgs = 1;
    rx_bytes = 2;
    db_rows = 0;
    commit_count = 0;
    commit_ns_sum = 0;
    commit_ns_max = 0;
  };
}

pub received_one :
    on_message whole always_bare (some 8) (pos 5) true first_trace.world.gateway message
    ≡ some one_received
unfolding on_message enqueue queue_push count_received empty text_eq
received_one = refl

pub at_8 : ◌≢◌ {A = ℕ} 8 0
at_8 = ground arith

pub no_node : first_trace.world.gateway.queue.heap 8 ≡ none
unfolding empty
no_node = refl

abbrev pub arrived : Trace whole endless
arrived = record first_trace {
  world = record (first_trace.world) { gateway = one_received };
  received = [] ++ received_of whole always_bare first_trace.world.gateway message;
  accepted =
      [] ++ accepted_of whole always_bare (some 8) (pos 5) true first_trace.world.gateway message;
}

arrived-Reach : Reach whole endless always_bare 50 fresh_disk arrived
arrived-Reach =
    next start (arrive (some 8) (pos 5) true message one_received (at_8, no_node) received_one)

Reach-Ledger_example : Ledger whole endless endless-Transactions fresh_disk arrived
Reach-Ledger_example =
    Reach-Ledger whole endless endless-Transactions always_bare 50 fresh_disk arrived-Reach

every_sample_stored_example :
    (written : List (TelemetryState ℕ)) × (waiting : List (TelemetryState ℕ)) × (arrived.accepted
      ≡ written ++ (in_hand arrived.world.phase ++ waiting))
    × (arrived.world.conn.rows ≡ fresh_disk.rows ++ map (bind_state whole) written)
    × (arrived.world.gateway.stats.db_rows ≡ length written % 2 ^ 64)
    × (arrived.world.gateway.queue.q_len ≡ length waiting % 2 ^ 64)
unfolding endless-Transactions
every_sample_stored_example =
    every_sample_stored whole endless endless-Transactions endless-Works always_bare 50 fresh_disk
      refl arrived-Reach

writer_loop-drains_example :
    (u : Trace whole endless) × Reach whole endless always_bare 50 fresh_disk u
    × (writer_loop whole endless 50 ((plenty, 10, 25) ∷ []) arrived.world ≡ some u.world)
    × (u.accepted ≡ arrived.accepted)
    × (batches u.turns ≡ arrived.accepted)
    × (u.world.gateway.queue.q_head ≡ 0)
unfolding text_eq
writer_loop-drains_example =
    writer_loop-drains whole endless 50 always_bare fresh_disk endless-Transactions
      ((plenty, 10, 25) ∷ []) (omega arith) arrived-Reach refl refl (omega arith)

-- The trace with an action of the writer more.
abbrev acted : Trace whole endless → World whole endless → Trace whole endless
acted t w = record t {
  world = w;
  turns = t.turns ++ turn_at whole endless plenty t.world.conn t.world.phase;
}

abbrev tested : Trace whole endless
tested = acted arrived (record (arrived.world) { phase = popping })

abbrev popped : Trace whole endless
popped = acted tested (record (tested.world) {
  gateway = record one_received { queue = unloaded };
  phase = writing (sample ∷ []);
})

abbrev written : Trace whole endless
written = acted popped (wrote whole endless plenty popped.world (sample ∷ []) 10 25)

tests_running : writer_step whole endless 50 plenty 10 25 arrived.world ≡ some tested.world
unfolding writer_step
tests_running = refl

pops_sample : writer_step whole endless 50 plenty 10 25 tested.world ≡ some popped.world
unfolding writer_step queue_pop_batch
pops_sample = refl

writes_sample : writer_step whole endless 50 plenty 10 25 popped.world ≡ some written.world
unfolding writer_step
writes_sample = refl

written-Reach : Reach whole endless always_bare 50 fresh_disk written
written-Reach =
    next
      (next (next arrived-Reach (work plenty 10 25 tested.world tests_running))
        (work plenty 10 25 popped.world pops_sample))
      (work plenty 10 25 written.world writes_sample)

sample-IsStorable : IsStorable whole sample
unfolding decode_sample default_state with_header with_sensors with_motor with_raw
sample-IsStorable = record {
  seq_small = omega arith;
  status_small = omega arith;
  timestamp_small = omega arith;
  acc_real = ((refl, refl), (refl, refl), (refl, refl));
  gyro_real = ((refl, refl), (refl, refl), (refl, refl));
  tilt_real = ((refl, refl), (refl, refl), (refl, refl));
  rpm = ((omega arith, omega arith), (omega arith, omega arith));
  temperature = ((omega arith, omega arith), (omega arith, omega arith));
  voltage = ((omega arith, omega arith), (omega arith, omega arith));
  current = ((omega arith, omega arith), (omega arith, omega arith));
}

abbrev answered : ℕ → Option (List Cells)
answered limit =
    some (take limit (reverse (map (λ v. select (named columns v)) written.world.conn.rows)))

history_reply-accepted_example :
    db_reader_history_last_json whole plenty answered (pos 2)
    ≡ reply (history_of whole written.accepted (clamp_limit (pos 2)))
unfolding endless-Transactions text_eq
history_reply-accepted_example =
    history_reply-accepted whole endless endless-Transactions endless-Works always_bare 50
      fresh_disk plenty answered (pos 2) refl refl written-Reach refl refl tt
      (sample-IsStorable, tt) (λ n. refl) (λ limit rising. refl)

abbrev halted : Trace whole endless
halted = record arrived { world = halt whole endless arrived.world }

abbrev ended : Trace whole endless
ended = acted halted (record (halted.world) { phase = finished })

ends : writer_step whole endless 50 plenty 10 25 halted.world ≡ some ended.world
unfolding writer_step
ends = refl

ended-Reach : Reach whole endless always_bare 50 fresh_disk ended
ended-Reach = next (next arrived-Reach stop) (work plenty 10 25 ended.world ends)

stop_releases_example :
    (h' : ℕ → Option (Node (TelemetryState ℕ))) × (freed : List (TelemetryState ℕ)) × (cells : List
      (ℕ × TelemetryState ℕ))
    × Holds ended.world.gateway.queue cells
    × (freed ≡ samples cells)
    × (release 1 ended.world.gateway.queue.heap ended.world.gateway.queue.q_head ≡ some (h', freed))
    × Gone h' cells
    × ((a : ℕ) → ended.world.gateway.queue.heap a ≡ none → h' a ≡ none)
    × (ended.accepted ≡ batches ended.turns ++ freed)
unfolding text_eq
stop_releases_example =
    stop_releases whole endless endless-Transactions always_bare 50 fresh_disk 1 ended-Reach refl
      (omega arith)
