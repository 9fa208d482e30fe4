-- ===== src/Consumer.antt =====
-- container_service_extension/mqi/consumer/consumer_thread_pool_executor.py, and of
-- mqtt_consumer.py `on_message` and `stop`: the thread that receives the messages, the worker
-- threads and the thread that stops the consumer, as one sequence of their steps. A step is what
-- runs between two points at which another thread can be seen. The executor of Python's library is
-- the jobs that it holds; it accepts a job unless it was shut down. What a job does is of no
-- concern here.
pub mod Bounds
pub mod Drain
pub mod Amqp
mod Tests
use container_service_extens.Common.{
  ℕ, suc, zero, ◌+◌, ◌-◌, ◌≡◌, Bool, true, false, Option, none, some, nat_eq, if◌then◌else◌,
}

-- ConsumerThreadPoolExecutor: `max_workers` and `_num_active_threads`.
pub record Pool : Type 0 where
  pub max_workers : ℕ
  pub num_active_threads : ℕ

unfoldable pub increment_num_active_threads : Pool → Pool
increment_num_active_threads p = record p { num_active_threads = p.num_active_threads + 1 }

-- Below 0 Python's number is negative; `Bounds` shows that no step comes there.
unfoldable pub decrement_num_active_threads : Pool → Pool
decrement_num_active_threads p = record p { num_active_threads = p.num_active_threads - 1 }

unfoldable pub max_threads_busy : Pool → Bool
max_threads_busy p = nat_eq p.num_active_threads p.max_workers

-- Where the receiving thread stands: it waits, has found the consumer open, has found a free
-- worker, has given the job to the executor, or has counted it and is to add the callback. The
-- Boolean says whether the job has ended meanwhile.
pub data Receiver : Type 0 where
  idle entered admitted : Receiver
  handed counted : Bool → Receiver

pub record Consumer : Type 0 where
  pub pool : Pool
  pub is_closing : Bool
  pub shut_down : Bool
  pub receiver : Receiver
  -- Jobs with a callback that work or wait, and jobs that have ended whose callback is to run.
  pub attached : ℕ
  pub ending : ℕ
  -- Messages that came, and what became of them: dropped while closing, answered with "too many
  -- requests", lost because the executor was shut down, accepted; and the jobs that have ended.
  pub received : ℕ
  pub ignored : ℕ
  pub refused : ℕ
  pub lost : ℕ
  pub accepted : ℕ
  pub finished : ℕ

abbrev pub init : ℕ → Consumer
init n = record {
  pool = record { max_workers = n; num_active_threads = 0 };
  is_closing = false;
  shut_down = false;
  receiver = idle;
  attached = 0;
  ending = 0;
  received = 0;
  ignored = 0;
  refused = 0;
  lost = 0;
  accepted = 0;
  finished = 0;
}

-- `receive`, `check`, `hand_over`, `count` and `attach` are the steps of the receiving thread, in
-- `on_message` and `submit`; a worker ends the receiving thread's job or another one, and runs a
-- callback; the last two are the steps of `stop`.
pub data Event : Type 0 where
  receive check hand_over count attach own_job_ends job_ends callback close shut : Event

unfoldable pub receive_message : Consumer → Receiver → Option Consumer
receive_message c idle = some (
    if c.is_closing
    then record c { received = c.received + 1; ignored = c.ignored + 1 }
    else record c { received = c.received + 1; receiver = entered })
receive_message c _ = none

unfoldable pub check_busy : Consumer → Receiver → Option Consumer
unfolding max_threads_busy
check_busy c entered = some (
    if max_threads_busy c.pool
    then record c { refused = c.refused + 1; receiver = idle }
    else record c { receiver = admitted })
check_busy c _ = none

unfoldable pub submit_job : Consumer → Receiver → Option Consumer
submit_job c admitted = some (
    if c.shut_down
    then record c { lost = c.lost + 1; receiver = idle }
    else record c { accepted = c.accepted + 1; receiver = handed false })
submit_job c _ = none

unfoldable pub count_job : Consumer → Receiver → Option Consumer
unfolding increment_num_active_threads
count_job c (handed ended) =
    some (record c { pool = increment_num_active_threads c.pool; receiver = counted ended })
count_job c _ = none

-- A callback that is added to a job that has ended runs at once.
unfoldable pub attach_callback : Consumer → Receiver → Option Consumer
unfolding decrement_num_active_threads
attach_callback c (counted true) =
    some (record c { pool = decrement_num_active_threads c.pool; receiver = idle })
attach_callback c (counted false) = some (record c { attached = c.attached + 1; receiver = idle })
attach_callback c _ = none

unfoldable pub end_own_job : Consumer → Receiver → Option Consumer
end_own_job c (handed false) = some (record c { finished = c.finished + 1; receiver = handed true })
end_own_job c (counted false) =
    some (record c { finished = c.finished + 1; receiver = counted true })
end_own_job c _ = none

unfoldable pub end_job : Consumer → ℕ → Option Consumer
end_job c zero = none
end_job c (suc n) =
    some (record c { attached = n; ending = c.ending + 1; finished = c.finished + 1 })

unfoldable pub run_callback : Consumer → ℕ → Option Consumer
unfolding decrement_num_active_threads
run_callback c zero = none
run_callback c (suc n) = some (record c { pool = decrement_num_active_threads c.pool; ending = n })

-- A step, if a thread stands where it can make it.
unfoldable pub step : Event → Consumer → Option Consumer
unfolding receive_message check_busy submit_job count_job attach_callback end_own_job end_job
    run_callback
step receive c = receive_message c c.receiver
step check c = check_busy c c.receiver
step hand_over c = submit_job c c.receiver
step count c = count_job c c.receiver
step attach c = attach_callback c c.receiver
step own_job_ends c = end_own_job c c.receiver
step job_ends c = end_job c c.attached
step callback c = run_callback c c.ending
step close c = some (record c { is_closing = true })
step shut c = if c.is_closing then some (record c { shut_down = true }) else none

-- What a consumer with `n` workers comes to.
pub data Reachable (n : ℕ) : Consumer → Type 0 where
  started : Reachable n (init n)
  stepped : {c d : Consumer} (e : Event) → Reachable n c → step e c ≡ some d → Reachable n d
