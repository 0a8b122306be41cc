-- ===== src/PhotoService/Queue/Quiet.antt =====
-- The photo service at rest, and its progress.
use costume_tree.Common.{
  ℕ, zero, suc, ◌≡◌, refl, ap, ◌⊎◌, inl, inr, false, List, [], ◌∷◌, arith, length, sum_by,
  Bool-cases, ok, Outcome-cases,
}
use costume_tree.Storage.Models.{CostumeItemPhoto}
use costume_tree.Storage.Database.{Store}
use costume_tree.Storage.Photos.{list_pending}
use costume_tree.PhotoService.Queue.{
  Dispatcher, idle, waiting, listing, enqueuing, sending, Job, processing, processed, cleared,
  Service, queue_capacity, start, is_queued, Work, notify, wake_up, retry_later, wait_over, list,
  list_fails, skip, claim, send, rest, receive, settle, clear, signal, Reach,
}
use costume_tree.PhotoService.Queue.Claims.{
  IsClaimed, Reach-IsClaimed, count, queue_count, job_weight, sending_count,
}
use costume_tree.PhotoService.Queue.Wakes.{
  pending_count, is_active, has_cleared, is_nil, Reach-IsAwake,
}

-- Nothing is left to do: no signal, no photo and no upload is under way.
pub record IsAtRest (s : Service) : Type 0 where
  pub dispatcher : s.dispatcher ≡ idle
  pub wake : s.wake ≡ false
  pub retry : s.retry ≡ false
  pub notifiers : s.notifiers ≡ 0
  pub queue : s.queue ≡ []
  pub jobs : s.jobs ≡ []

uncounted : (ids : List ℕ) → ((n : ℕ) → count n ids ≡ 0) → ids ≡ []
uncounted [] h = refl
uncounted (k ∷ ids) h = absurd (ground (arith, h k))

rest_unqueued : (s : Service) → IsClaimed s → IsAtRest s → s.queued ≡ []
rest_unqueued s c r = uncounted s.queued (λ n. ground (
  arith,
  c.matches n,
  ap (sending_count n) r.dispatcher,
  ap (queue_count n) r.queue,
  ap (sum_by (job_weight n)) r.jobs,
))

-- A started service that has come to rest, whatever the requests and failures before, has left no photo
-- of the database pending, and holds no photo in `queued`.
pub rest-none_pending :
    (store : Store) {s : Service}
    → Reach (start store) s
    → IsAtRest s
    → (pending_count s.store ≡ 0) × (s.queued ≡ [])
rest-none_pending store {s} r q =
    let unqueued = rest_unqueued s (Reach-IsClaimed store r) q in
    elim (Reach-IsAwake store r) [
      | inr z ↦ (z, unqueued)
      | inl live ↦
          let still = ap is_active q.dispatcher in
          let uncleared = ap has_cleared q.jobs in
          let nil = ap is_nil unqueued in absurd (ground arith)
    ]

module _ (s : Service) where
  abbrev CanWork : Type 0
  CanWork = IsAtRest s ⊎ ((t : Service) × Work s t)

  dispatcher_works :
      (d : Dispatcher) → s.dispatcher ≡ d → s.queue ≡ [] → s.jobs ≡ [] → s.notifiers ≡ 0 → CanWork
  dispatcher_works idle e q j n = elim (Bool-cases s.wake) [
    | inl w ↦ inr (_, wake_up e w)
    | inr w ↦ elim (Bool-cases s.retry) [
      | inl r ↦ inr (_, retry_later e r)
      | inr r ↦
          inl (record { dispatcher = e; wake = w; retry = r; notifiers = n; queue = q; jobs = j })
    ]
  ]
  dispatcher_works waiting e q j n = inr (_, wait_over e)
  dispatcher_works listing e q j n = elim (Outcome-cases (list_pending queue_capacity s.store)) [
    | inl ((photos, t), l) ↦ inr (_, list e l)
    | inr (x, l) ↦ inr (_, list_fails e)
  ]
  dispatcher_works (enqueuing []) e q j n = inr (_, rest e)
  dispatcher_works (enqueuing (p ∷ ps)) e q j n = elim (Bool-cases (is_queued p.id s.queued)) [
    | inl k ↦ inr (_, skip e k)
    | inr k ↦ inr (_, claim e k)
  ]
  dispatcher_works (sending p ps) e q j n = inr (_, send e (omega (arith, ap length q)))

  notifiers_work : (n : ℕ) → s.notifiers ≡ n → s.queue ≡ [] → s.jobs ≡ [] → CanWork
  notifiers_work zero e q j = dispatcher_works s.dispatcher refl q j e
  notifiers_work (suc n) e q j = inr (_, notify e)

  queue_works : (ps : List CostumeItemPhoto) → s.queue ≡ ps → s.jobs ≡ [] → CanWork
  queue_works [] q j = notifiers_work s.notifiers refl q j
  queue_works (p ∷ ps) q j = inr (_, receive q (omega (arith, ap length j)))

  -- A worker with a photo, else a free worker, else an upload, else the dispatcher can go on.
  jobs_work : (jobs : List Job) → s.jobs ≡ jobs → CanWork
  jobs_work [] j = queue_works s.queue refl j
  jobs_work (processing p ∷ jobs) j = inr (_, settle [] jobs p (ok tt) 0 j)
  jobs_work (processed p done ∷ jobs) j = inr (_, clear [] jobs p done j)
  jobs_work (cleared done ∷ jobs) j = inr (_, signal [] jobs done j)

-- A service that is not at rest can always go on: its goroutines do not all wait for one another.
pub progress : (s : Service) → IsAtRest s ⊎ ((t : Service) × Work s t)
progress s = jobs_work s s.jobs refl
