-- ===== src/Queue.antt =====
-- internal/queue/job.go and memory.go: jobs and the in-memory queue. `Close` runs under the mutex, and a
-- send to or receive from the channel is one step. `Enqueue` gives the mutex back between its test of
-- `closed` and the send, so these are two steps, and `enqueue` is the call that nothing comes between. A
-- call that has to wait returns `blocks`: how a sender and a receiver that both wait meet on an
-- unbuffered channel, and the cancellation of a context, are not modelled.
use nexus_bench.Base.{
  ℕ, String, Bool, true, false, List, [], ◌∷◌, ◌++◌, ltb, ◌==◌, length, if◌then◌else◌,
}
use Prim.Native.String.{◌++◌ as str_append}
use nexus_bench.Base.Float.{FloatOps}
use nexus_bench.Models.{Submission}

pub record Job : Type 0 where
  pub id : String
  pub submission_id : String
  pub team_name : String
  pub language : String
  pub protocol : String
  pub archive_path : String
  pub enqueued_at : ℕ
  pub contest_id : String
  pub volatility_label : String
  pub remaining_profiles : List String

module _ (F : FloatOps) where
  abbrev pub new_job : ℕ → Submission F → Job
  new_job now sub = record {
    id = sub.id;
    submission_id = sub.id;
    team_name = sub.team_name;
    language = sub.language;
    protocol = sub.protocol;
    archive_path = sub.archive_path;
    enqueued_at = now;
    contest_id = "";
    volatility_label = "";
    remaining_profiles = [];
  }

  abbrev pub new_profile_job : ℕ → Submission F → String → String → List String → Job
  new_profile_job now sub contest_id label remaining = record {
    id = str_append sub.id (str_append "/" label);
    submission_id = sub.id;
    team_name = sub.team_name;
    language = sub.language;
    protocol = sub.protocol;
    archive_path = sub.archive_path;
    enqueued_at = now;
    contest_id = contest_id;
    volatility_label = label;
    remaining_profiles = remaining;
  }

abbrev pub is_last_profile : Job → Bool
is_last_profile j = elim j.remaining_profiles [ [] ↦ true | (label ∷ labels) ↦ false ]

pub record MemoryQueue : Type 0 where
  pub ch : List Job
  pub cap : ℕ
  pub closed : Bool

pub data EnqueueResult : Type 0 where
  enqueued : EnqueueResult
  enqueue_on_closed : EnqueueResult
  buffer_full : EnqueueResult
  enqueue_blocks : EnqueueResult
  enqueue_panics : EnqueueResult

pub data DequeueResult : Type 0 where
  dequeued : Job → DequeueResult
  dequeue_on_closed : DequeueResult
  dequeue_blocks : DequeueResult

unfoldable pub new_memory_queue : ℕ → MemoryQueue
new_memory_queue buf_size = record { ch = []; cap = buf_size; closed = false }

-- The part behind the test of `closed`. A send to a channel that is closed by then panics; on an
-- unbuffered queue the call waits for a receiver.
unfoldable pub send_job : MemoryQueue → Job → MemoryQueue × EnqueueResult
send_job q j =
    if q.closed
    then (q, enqueue_panics)
    else if q.cap == 0
    then (q, enqueue_blocks)
    else if ltb (length q.ch) q.cap
    then (record q { ch = q.ch ++ j ∷ [] }, enqueued)
    else (q, buffer_full)

unfoldable pub enqueue : MemoryQueue → Job → MemoryQueue × EnqueueResult
enqueue q j = if q.closed then (q, enqueue_on_closed) else send_job q j

-- A closed channel still gives what it holds.
unfoldable pub dequeue : MemoryQueue → MemoryQueue × DequeueResult
dequeue q = elim q.ch [
  | [] ↦ (q, if q.closed then dequeue_on_closed else dequeue_blocks)
  | (j ∷ js) ↦ (record q { ch = js }, dequeued j)
]

unfoldable pub queue_depth : MemoryQueue → ℕ
queue_depth q = length q.ch

unfoldable pub close_queue : MemoryQueue → MemoryQueue
close_queue q = record q { closed = true }
