-- ===== src/Examples/Traffic.antt =====
-- The queue and the MQTT callback of src/app/telemetry_gateway.c.
use telemetry_testbed.Base.{
  ℕ, ◌%◌, ◌^◌, ◌≡◌, ◌≢◌, refl, ◌⊎◌, List, [], ◌∷◌, ◌++◌, Option, none, some, true, false, codes,
  arith, length, take, drop,
}
use telemetry_testbed.Base.Int.{pos}
use telemetry_testbed.Types.{TelemetryState, StateMessage}
use telemetry_testbed.Gateway.Queue.{Queue, store, empty, queue_push, waits, takes, queue_pop_batch}
use telemetry_testbed.Gateway.Queue.Refinement.{
  Holds, samples, queue_push-Holds, queue_pop_batch-Holds,
}
use telemetry_testbed.Gateway.Queue.Fifo.{
  Traffic, Reach, start, next, push, pop, fifo, queue_no_fault,
}
use telemetry_testbed.Gateway.Message.{decode_sample}
use telemetry_testbed.Gateway.Message.Names.{HasNames, decode_sample-HasNames}
use telemetry_testbed.Gateway.Writer.{Stats}
use telemetry_testbed.Gateway.Receive.{MqttMessage, Gateway, on_message, count_received}
use telemetry_testbed.Gateway.Receive.Arrival.{on_message-cases}
use telemetry_testbed.Gateway.Message.{telemetry_topic_state}
use telemetry_testbed.Examples.Sample.{whole, bare}

abbrev vacant : Queue ℕ
vacant = record { heap = λ a. none; q_head = 0; q_tail = 0; q_len = 0; q_len_max = 0 }

abbrev one_waits : Queue ℕ
one_waits = record {
  heap = store vacant.heap 8 (some (record { s = 70; next = 0 }));
  q_head = 8;
  q_tail = 8;
  q_len = 1;
  q_len_max = 1;
}

abbrev two_wait : Queue ℕ
two_wait = record {
  heap =
      store (store one_waits.heap 9 (some (record { s = 71; next = 0 }))) 8
        (some (record { s = 70; next = 9 }));
  q_head = 8;
  q_tail = 9;
  q_len = 2;
  q_len_max = 2;
}

abbrev last_waits : Queue ℕ
last_waits = record {
  heap = store two_wait.heap 8 none;
  q_head = 9;
  q_tail = 9;
  q_len = 1;
  q_len_max = 2;
}

at_8 : ◌≢◌ {A = ℕ} 8 0
at_8 = ground arith

at_9 : ◌≢◌ {A = ℕ} 9 0
at_9 = ground arith

abbrev crossed : Traffic ℕ
crossed = record { q = last_waits; pushed = 70 ∷ 71 ∷ []; taken = 70 ∷ [] }

one_pushed : queue_push (some 8) empty 70 ≡ some one_waits
unfolding queue_push empty
one_pushed = refl

two_pushed : queue_push (some 9) one_waits 71 ≡ some two_wait
unfolding queue_push
two_pushed = refl

one_taken : queue_pop_batch true two_wait 1 ≡ takes (some (70 ∷ [], last_waits))
unfolding queue_pop_batch
one_taken = refl

no_node : (empty {A = ℕ}).heap 8 ≡ none
unfolding empty
no_node = refl

-- Two samples pushed, and the first one taken.
crossed-Reach : Reach crossed
crossed-Reach =
    next
      (next (next start (push 8 70 one_waits at_8 no_node one_pushed))
        (push 9 71 two_wait at_9 refl two_pushed))
      (pop 1 true (70 ∷ []) last_waits one_taken)

fifo_example :
    (waiting : List ℕ) × (crossed.pushed ≡ crossed.taken ++ waiting)
    × (crossed.q.q_len ≡ length waiting % 2 ^ 64)
fifo_example = fifo crossed-Reach

queue_no_fault_example :
    (queue_push (some 8) last_waits 72 ≢ none) × (queue_pop_batch true last_waits 5 ≢ takes none)
queue_no_fault_example = queue_no_fault 8 72 true 5 crossed-Reach at_8 refl

vacant-Holds : Holds vacant []
vacant-Holds = record { head = refl; tail = refl; chain = tt; len = refl }

queue_push-Holds_run :
    (q' : Queue ℕ) × (queue_push (some 8) vacant 70 ≡ some q') × Holds q' ((8, 70) ∷ [])
queue_push-Holds_run = queue_push-Holds vacant 8 70 [] at_8 refl vacant-Holds

abbrev one_cell : List (ℕ × ℕ)
one_cell = (8, 70) ∷ []

one_waits-Holds : Holds one_waits one_cell
one_waits-Holds = record { head = refl; tail = refl; chain = (at_8, refl, tt, tt); len = refl }

queue_pop_batch-Holds_run :
    ((true ≡ true) × (one_cell ≡ []) × (queue_pop_batch true one_waits 4 ≡ waits))
    ⊎ ((q' : Queue ℕ) × (queue_pop_batch true one_waits 4
          ≡ takes (some (samples (take 4 one_cell), q')))
        × Holds q' (drop 4 one_cell))
queue_pop_batch-Holds_run = queue_pop_batch-Holds true one_waits 4 one_cell one_waits-Holds

decode_sample-HasNames_example : HasNames (decode_sample whole (pos 5) true (1 ∷ []) bare)
decode_sample-HasNames_example = decode_sample-HasNames whole (pos 5) true (1 ∷ []) bare

abbrev no_samples : Queue (TelemetryState ℕ)
no_samples = record { heap = λ a. none; q_head = 0; q_tail = 0; q_len = 0; q_len_max = 0 }

no_samples-Holds : Holds no_samples []
no_samples-Holds = record { head = refl; tail = refl; chain = tt; len = refl }

abbrev unused : Stats
unused = record {
  rx_msgs = 0;
  rx_bytes = 0;
  db_rows = 0;
  commit_count = 0;
  commit_ns_sum = 0;
  commit_ns_max = 0;
}

abbrev gateway : Gateway ℕ
gateway = record { running = true; queue = no_samples; stats = unused }

abbrev arriving : MqttMessage
arriving = record { topic = some telemetry_topic_state; payload = 1 ∷ 2 ∷ [] }

abbrev always_bare : List ℕ → Option (StateMessage ℕ)
always_bare payload = some bare

on_message-cases_example :
    ((((gateway.running ≡ false) ⊎ (arriving.topic ≢ some (codes "/robot/v1/telemetry/state")))
      × (on_message whole always_bare (some 8) (pos 5) true gateway arriving ≡ some gateway)))
    ⊎ ((g' : Gateway ℕ) × (gateway.running ≡ true)
        × (arriving.topic ≡ some (codes "/robot/v1/telemetry/state"))
        × (on_message whole always_bare (some 8) (pos 5) true gateway arriving ≡ some g')
        × (g'.stats ≡ count_received gateway.stats (length arriving.payload))
        × (g'.running ≡ true)
        × (((always_bare arriving.payload ≡ none) × Holds g'.queue [])
            ⊎ ((st : StateMessage ℕ) × (always_bare arriving.payload ≡ some st)
                × Holds g'.queue
                    ([] ++ ((8, decode_sample whole (pos 5) true arriving.payload st) ∷ [])))))
on_message-cases_example =
    on_message-cases whole always_bare 8 (pos 5) true gateway arriving [] at_8 refl no_samples-Holds
