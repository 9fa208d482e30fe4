-- ===== src/Consumer/Amqp/Redelivery.antt =====
-- What the AMQP consumer does with a request that is delivered again.
use container_service_extens.Common.{
  ℕ, suc, String, ◌≡◌, refl, Bool, true, false, List, [], ◌∷◌, ◌==◌, eq_refl, if◌then◌else◌, ap,
  ◌∙◌, Bool-cases, inl, inr,
}
use container_service_extens.Consumer.{max_threads_busy}
use container_service_extens.Consumer.Amqp.{rejected, accepted, Amqp, on_message}

-- How many workers process a request.
abbrev pub workers_of : String → List String → ℕ
workers_of id [] = 0
workers_of id (x ∷ xs) = let rest = workers_of id xs in if x == id then suc rest else rest

workers_of_self :
    (id : String) (xs : List String) → workers_of id (id ∷ xs) ≡ suc (workers_of id xs)
workers_of_self id xs = rw (eq_refl id) refl

module _ (Cache : Type 0) (has : String → Cache → Bool) (put del : String → Cache → Cache)
    (has-put : (id : String) (c : Cache) → has id (put id c) ≡ true)
    (has-del : (id : String) (c : Cache) → has id (del id c) ≡ false) where
  on_message-open :
      (id : String) (s : Amqp Cache has put del)
      → (on_message Cache has put del id s).0 ≡ accepted
      → ((on_message Cache has put del id s).1.is_closed ≡ false)
        × (has id (on_message Cache has put del id s).1.requests_being_processed ≡ true)
  unfolding on_message
  on_message-open id s a = elim (Bool-cases s.is_closed) [
    | inl p ↦ absurd (let q = rw p at a in cc)
    | inr p ↦ elim (Bool-cases (has id s.requests_being_processed)) [
      | inl q ↦ absurd (let r = rw (p, q) at a in cc)
      | inr q ↦ elim (Bool-cases (max_threads_busy s.pool)) [
        | inl b ↦ absurd (let r = rw (p, q, b) at a in cc)
        | inr b ↦ rw (p, q, b) (refl, has-put id s.requests_being_processed)
      ]
    ]
  ]

  on_message-rejected :
      (id : String) (s : Amqp Cache has put del)
      → s.is_closed ≡ false
      → has id s.requests_being_processed ≡ true
      → on_message Cache has put del id s
        ≡ (rejected, record s { requests_being_processed = del id s.requests_being_processed })
  unfolding on_message
  on_message-rejected id s p q = rw (p, q) refl

  on_message-accepted :
      (id : String) (s : Amqp Cache has put del)
      → s.is_closed ≡ false
      → has id s.requests_being_processed ≡ false
      → max_threads_busy s.pool ≡ false
      → ((on_message Cache has put del id s).0 ≡ accepted)
        × ((on_message Cache has put del id s).1.running ≡ id ∷ s.running)
  unfolding on_message
  on_message-accepted id s p q b = rw (p, q, b) (refl, refl)

  -- A request that was accepted is rejected when it is delivered again at once, and no worker takes
  -- it a second time; but delivered once more while a worker is free, it is accepted again, and one
  -- worker more than at the first delivery processes it, with no request finished in between.
  pub on_message-redelivered :
      (id : String) (s : Amqp Cache has put del)
      → (on_message Cache has put del id s).0 ≡ accepted
      → max_threads_busy (on_message Cache has put del id s).1.pool ≡ false
      → let once = (on_message Cache has put del id s).1 in
        let twice = on_message Cache has put del id once in
        let thrice = on_message Cache has put del id twice.1 in
        (twice.0 ≡ rejected)
        × (twice.1.running ≡ once.running)
        × (thrice.0 ≡ accepted)
        × (workers_of id thrice.1.running ≡ suc (workers_of id once.running))
  on_message-redelivered id s a free =
      let once = (on_message Cache has put del id s).1 in
      let (open_, held) = on_message-open id s a in
      let again = on_message-rejected id once open_ held in
      let left : Amqp Cache has put del = record once {
        requests_being_processed = del id once.requests_being_processed;
      } in
      let (x, y) =
        on_message-accepted id left open_ (has-del id once.requests_being_processed) free in
      rw again (refl, refl, x, ap (workers_of id) y ∙ workers_of_self id once.running)
