-- ===== src/Consumer/Amqp.antt =====
-- container_service_extension/mqi/consumer/amqp_consumer.py: `on_message`, and the end of
-- `process_amqp_message`. A message is its request's identifier. The cache of the requests that are
-- being processed is a parameter, with a test, an insertion and a deletion of an identifier. The
-- steps of `submit` are those of `Consumer`, taken at once here.
pub mod Redelivery
use container_service_extens.Common.{
  ℕ, String, Bool, true, false, List, [], ◌∷◌, ◌==◌, if◌then◌else◌,
}
use container_service_extens.Consumer.{
  Pool, increment_num_active_threads, decrement_num_active_threads, max_threads_busy,
}

-- What becomes of a message: dropped as the channel closes, rejected, acknowledged and answered
-- with "too many requests", or acknowledged and given to a worker.
pub data Answer : Type 0 where
  dropped rejected too_many_requests accepted : Answer

-- A list without the first place of an identifier.
unfoldable pub without : String → List String → List String
without id [] = []
without id (x ∷ xs) = let rest = without id xs in if x == id then xs else x ∷ rest

module _ (Cache : Type 0) (has : String → Cache → Bool) (put del : String → Cache → Cache) where
  pub record Amqp : Type 0 where
    pub pool : Pool
    pub is_closed : Bool
    pub requests_being_processed : Cache
    -- The requests that workers process.
    pub running : List String

  start : String → Amqp → Answer × Amqp
  unfolding max_threads_busy increment_num_active_threads
  start id c = if max_threads_busy c.pool then (too_many_requests, c) else (
    accepted,
    record c {
      pool = increment_num_active_threads c.pool;
      requests_being_processed = put id c.requests_being_processed;
      running = id ∷ c.running;
    },
  )

  unfoldable pub on_message : String → Amqp → Answer × Amqp
  unfolding start
  on_message id c =
      if c.is_closed
      then (dropped, c)
      else if has id c.requests_being_processed
      then (rejected, record c { requests_being_processed = del id c.requests_being_processed })
      else start id c

  -- A worker has sent its reply: it forgets the request, and its callback runs.
  unfoldable pub finish : String → Amqp → Amqp
  unfolding without decrement_num_active_threads
  finish id c = record c {
    pool = decrement_num_active_threads c.pool;
    requests_being_processed =
        if has id c.requests_being_processed
        then del id c.requests_being_processed
        else c.requests_being_processed;
    running = without id c.running;
  }
