-- ===== src/PhotoService/Queue/Claims.antt =====
-- No photo is twice in the hands of the photo service's dispatcher, queue and workers.
use costume_tree.Common.{
  ℕ, ◌+◌, ◌≤◌, ◌≡◌, refl, sym, ap, ◌∙◌, inl, inr, Bool, false, List, [], ◌∷◌, ◌++◌, ◌==◌,
  if◌then◌else◌, arith, length, count_where, sum_by, sum_by-append, count_where-append,
  length-append, Bool-cases,
}
use costume_tree.Storage.Models.{CostumeItemPhoto}
use costume_tree.Storage.Database.{Store}
use costume_tree.PhotoService.Queue.{
  Dispatcher, idle, waiting, listing, enqueuing, sending, Job, processing, processed, cleared,
  Service, queue_capacity, worker_count, start, is_queued, remove, process, Work, notify, wake_up,
  retry_later, wait_over, list, list_fails, skip, claim, send, rest, receive, settle, settle_fails,
  clear, signal, Step, work, create, elsewhere, Reach, here, next,
}

-- How often a photo is about to be sent, in the queue, and with a worker.
abbrev pub sending_count : ℕ → Dispatcher → ℕ
sending_count n (sending p ps) = if p.id == n then 1 else 0
sending_count n idle = 0
sending_count n waiting = 0
sending_count n listing = 0
sending_count n (enqueuing ps) = 0

abbrev pub queue_count : ℕ → List CostumeItemPhoto → ℕ
queue_count n ps = count_where (λ p. p.id == n) ps

abbrev pub job_weight : ℕ → Job → ℕ
job_weight n (processing p) = if p.id == n then 1 else 0
job_weight n (processed p done) = if p.id == n then 1 else 0
job_weight n (cleared done) = 0

abbrev pub in_work : ℕ → Service → ℕ
in_work n s = sending_count n s.dispatcher + queue_count n s.queue + sum_by (job_weight n) s.jobs

abbrev pub count : ℕ → List ℕ → ℕ
count n ids = count_where (λ k. k == n) ids

-- The set `queued` holds the photos in work, each of which is there once; the queue's channel and the
-- workers are bounded.
pub record IsClaimed (s : Service) : Type 0 where
  pub matches : (n : ℕ) → count n s.queued ≡ in_work n s
  pub once : (n : ℕ) → in_work n s ≤ 1
  pub queue_bound : length s.queue ≤ queue_capacity
  pub worker_bound : length s.jobs ≤ worker_count

count-is_queued : (n : ℕ) (ids : List ℕ) → is_queued n ids ≡ false → count n ids ≡ 0
unfolding is_queued
count-is_queued n [] h = refl
count-is_queued n (k ∷ ids) h = ground (arith, count-is_queued n ids)

count-remove :
    (n id : ℕ) (ids : List ℕ) → count n (remove id ids) ≡ (if id == n then 0 else count n ids)
unfolding remove
count-remove n id [] = ground arith
count-remove n id (k ∷ ids) = ground (arith, count-remove n id ids)

-- A job that is replaced by another of the same weight
job_swap :
    (n : ℕ) (jobs before after : List Job) (j k : Job)
    → jobs ≡ before ++ j ∷ after
    → sum_by (job_weight n) jobs + job_weight n k
      ≡ sum_by (job_weight n) (before ++ k ∷ after) + job_weight n j
job_swap n jobs before after j k e =
    rw
      (
        e,
        sum_by-append (job_weight n) before (j ∷ after),
        sum_by-append (job_weight n) before (k ∷ after),
      )
      (omega arith)

length-swap :
    (jobs before after : List Job) (j k : Job)
    → jobs ≡ before ++ j ∷ after
    → length (before ++ k ∷ after) ≡ length jobs
length-swap jobs before after j k e =
    rw (e, length-append before (j ∷ after), length-append before (k ∷ after)) (omega arith)

IsClaimed-kept :
    (s t : Service)
    → IsClaimed s
    → t.queued ≡ s.queued
    → ((n : ℕ) → in_work n t ≡ in_work n s)
    → length t.queue ≤ queue_capacity
    → length t.jobs ≤ worker_count
    → IsClaimed t
IsClaimed-kept s t h same works queues workers = record {
  matches = λ n. ap (count n) same ∙ omega (arith, h.matches n, works n);
  once = λ n. omega (arith, h.once n, works n);
  queue_bound = queues;
  worker_bound = workers;
}

-- A step of the dispatcher that sends nothing
dispatched :
    (s : Service) (d : Dispatcher) (n : ℕ)
    → s.dispatcher ≡ d
    → sending_count n d ≡ 0
    → in_work n s ≡ queue_count n s.queue + sum_by (job_weight n) s.jobs
dispatched s d n e z = omega (arith, ap (sending_count n) e, z)

-- A photo that leaves `queued` leaves the work.
cleared_count :
    (s : Service) (before after : List Job) (p : CostumeItemPhoto) (done : Bool)
    → s.jobs ≡ before ++ processed p done ∷ after
    → IsClaimed s
    → (n : ℕ)
    → in_work n (record s { jobs = before ++ cleared done ∷ after })
      ≡ (if p.id == n then 0 else count n s.queued)
cleared_count s before after p done e h n =
    let swap = job_swap n s.jobs before after (processed p done) (cleared done) e in
    ground (arith, swap, h.once n, h.matches n)

Work-IsClaimed : {s t : Service} → Work s t → IsClaimed s → IsClaimed t
Work-IsClaimed {s} (notify e) h = IsClaimed-kept s _ h refl (λ n. refl) h.queue_bound h.worker_bound
Work-IsClaimed {s} (wake_up e w) h =
    IsClaimed-kept s _ h refl (λ n. omega (arith, dispatched s idle n e refl)) h.queue_bound
      h.worker_bound
Work-IsClaimed {s} (retry_later e w) h =
    IsClaimed-kept s _ h refl (λ n. omega (arith, dispatched s idle n e refl)) h.queue_bound
      h.worker_bound
Work-IsClaimed {s} (wait_over e) h =
    IsClaimed-kept s _ h refl (λ n. omega (arith, dispatched s waiting n e refl)) h.queue_bound
      h.worker_bound
Work-IsClaimed {s} (list e q) h =
    IsClaimed-kept s _ h refl (λ n. omega (arith, dispatched s listing n e refl)) h.queue_bound
      h.worker_bound
Work-IsClaimed {s} (list_fails e) h =
    IsClaimed-kept s _ h refl (λ n. omega (arith, dispatched s listing n e refl)) h.queue_bound
      h.worker_bound
Work-IsClaimed {s} (skip e q) h =
    IsClaimed-kept s _ h refl (λ n. omega (arith, dispatched s (enqueuing _) n e refl))
      h.queue_bound h.worker_bound
Work-IsClaimed {s} (rest e) h =
    IsClaimed-kept s _ h refl (λ n. omega (arith, dispatched s (enqueuing []) n e refl))
      h.queue_bound h.worker_bound
Work-IsClaimed {s} (claim {p} {ps} e q) h = record {
  matches = λ n. omega (arith, h.matches n, dispatched s (enqueuing (p ∷ ps)) n e refl);
  once = λ n. elim (Bool-cases (p.id == n)) [
    | inl i ↦
        let same : p.id ≡ n = ground arith in
        let absent : count n s.queued ≡ 0 =
          ap (λ k. count k s.queued) (sym same) ∙ count-is_queued p.id s.queued q in
        rw i (omega (arith, h.matches n, dispatched s (enqueuing (p ∷ ps)) n e refl))
    | inr i ↦ rw i (omega (arith, h.once n, dispatched s (enqueuing (p ∷ ps)) n e refl))
  ];
  queue_bound = h.queue_bound;
  worker_bound = h.worker_bound;
}
Work-IsClaimed {s} (send {p} {ps} e q) h =
    IsClaimed-kept s _ h refl
      (λ n. omega (
        arith,
        ap (sending_count n) e,
        count_where-append (λ (k : CostumeItemPhoto). k.id == n) s.queue (p ∷ []),
      ))
      (omega (arith, length-append s.queue (p ∷ []))) h.worker_bound
Work-IsClaimed {s} (receive {p} {ps} e q) h =
    IsClaimed-kept s _ h refl (λ n. omega (arith, ap (queue_count n) e))
      (omega (arith, h.queue_bound, ap length e)) (omega arith)
Work-IsClaimed {s} (settle before after p images now e) h =
    IsClaimed-kept s _ h refl
      (λ n. omega (
        arith,
        job_swap n s.jobs before after (processing p) (processed p (process p images now s.store).0)
            e,
      ))
      h.queue_bound
      (omega (
        arith,
        h.worker_bound,
        length-swap s.jobs before after (processing p)
            (processed p (process p images now s.store).0) e,
      ))
Work-IsClaimed {s} (settle_fails before after p e) h =
    IsClaimed-kept s _ h refl
      (λ n. omega (arith, job_swap n s.jobs before after (processing p) (processed p false) e))
      h.queue_bound
      (omega (
        arith,
        h.worker_bound,
        length-swap s.jobs before after (processing p) (processed p false) e,
      ))
Work-IsClaimed {s} (clear before after p done e) h = record {
  matches =
      λ n. omega (arith, cleared_count s before after p done e h n, count-remove n p.id s.queued);
  once = λ n.
      omega (arith, h.once n, job_swap n s.jobs before after (processed p done) (cleared done) e);
  queue_bound = h.queue_bound;
  worker_bound =
      omega (
        arith,
        h.worker_bound,
        length-swap s.jobs before after (processed p done) (cleared done) e,
      );
}
Work-IsClaimed {s} (signal before after done e) h =
    IsClaimed-kept s _ h refl
      (λ n. omega (
        arith,
        ap (sum_by (job_weight n)) e,
        sum_by-append (job_weight n) before (cleared done ∷ after),
        sum_by-append (job_weight n) before after,
      ))
      h.queue_bound
      (omega (
        arith,
        h.worker_bound,
        ap length e,
        length-append before (cleared done ∷ after),
        length-append before after,
      ))

Step-IsClaimed : {s t : Service} → Step s t → IsClaimed s → IsClaimed t
Step-IsClaimed (work w) h = Work-IsClaimed w h
Step-IsClaimed {s} (create input now e) h =
    IsClaimed-kept s _ h refl (λ n. refl) h.queue_bound h.worker_bound
Step-IsClaimed {s} (elsewhere e) h =
    IsClaimed-kept s _ h refl (λ n. refl) h.queue_bound h.worker_bound

-- In every state that a started service reaches, the set `queued` holds exactly the photos that are
-- about to be sent, in the queue or with a worker, and each of them is there once: no photo is with
-- two workers. At most 64 photos wait and at most two are with workers.
pub Reach-IsClaimed : (store : Store) {s : Service} → Reach (start store) s → IsClaimed s
unfolding start
Reach-IsClaimed store here = record {
  matches = λ n. refl;
  once = λ n. omega arith;
  queue_bound = omega arith;
  worker_bound = omega arith;
}
Reach-IsClaimed store (next r st) = Step-IsClaimed st (Reach-IsClaimed store r)
