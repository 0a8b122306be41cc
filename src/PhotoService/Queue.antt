-- ===== src/PhotoService/Queue.antt =====
-- The queue of internal/photos/service.go: its dispatcher, its workers and the signals between them,
-- as a step relation. Each step is what one goroutine does between two points where another may run:
-- one statement of the database, one access under the mutex or one operation on a channel.
pub mod Claims
pub mod Wakes
pub mod Quiet
pub mod Messages
mod Tests
use costume_tree.Common.{
  ℕ, suc, ◌+◌, ◌-◌, ◌*◌, ◌/◌, ◌%◌, ◌≤◌, ◌<◌, ◌≡◌, Bool, true, false, not, ◌&&◌, ◌||◌, Option, none,
  some, List, [], ◌∷◌, ◌++◌, map, ◌==◌, ltb, leb, if◌then◌else◌, Outcome, ok, err, Text, length,
  take, find?, select, storable,
}
use costume_tree.Storage.Models.{CostumeItemPhoto, CreateCostumeItemPhotoInput, StoreError}
use costume_tree.Storage.Database.{Store, is_none}
use costume_tree.Storage.Photos

-- The goroutine `dispatch`: at its select, in `waitToRetry`, before `ListPending`, in the loop over
-- the photos listed, or about to send a photo that it has put into `queued`.
pub data Dispatcher : Type 0 where
  idle waiting listing : Dispatcher
  enqueuing : List CostumeItemPhoto → Dispatcher
  sending : CostumeItemPhoto → List CostumeItemPhoto → Dispatcher

-- A worker with a photo: before `process`, after it, and after the photo has left `queued`.
pub data Job : Type 0 where
  processing : CostumeItemPhoto → Job
  processed : CostumeItemPhoto → Bool → Job
  cleared : Bool → Job

-- A started service. `notifiers` counts the uploads between `Create` and `notify`.
pub record Service : Type 0 where
  pub store : Store
  pub dispatcher : Dispatcher
  pub queue : List CostumeItemPhoto
  pub queued : List ℕ
  pub wake : Bool
  pub retry : Bool
  pub jobs : List Job
  pub notifiers : ℕ

abbrev pub queue_capacity : ℕ
queue_capacity = 64

abbrev pub worker_count : ℕ
worker_count = 2

-- `Start`, up to its `notify`
unfoldable pub start : Store → Service
start store = record {
  store = store;
  dispatcher = idle;
  queue = [];
  queued = [];
  wake = true;
  retry = false;
  jobs = [];
  notifiers = 0;
}

-- `_, exists := s.queued[id]`
unfoldable pub is_queued : ℕ → List ℕ → Bool
is_queued id ids = not (is_none (find? (λ k. k == id) ids))

-- `delete(s.queued, id)`
unfoldable pub remove : ℕ → List ℕ → List ℕ
remove id ids = select (λ k. not (k == id)) ids

-- The bytes of a symbol in UTF-8
unfoldable pub bytes_of : ℕ → List ℕ
bytes_of c =
    if ltb c 0x80
    then c ∷ []
    else if ltb c 0x800
    then (0xC0 + c / 0x40) ∷ (0x80 + c % 0x40) ∷ []
    else if ltb c 0x10000
    then (0xE0 + c / 0x1000) ∷ (0x80 + c / 0x40 % 0x40) ∷ (0x80 + c % 0x40) ∷ []
    else if ltb c 0x110000
    then (0xF0 + c / 0x40000)
      ∷ (0x80 + c / 0x1000 % 0x40)
      ∷ (0x80 + c / 0x40 % 0x40)
      ∷ (0x80 + c % 0x40)
      ∷ []
    else (c - 0x110000) ∷ []

-- `s[:n]`, or `s` if it is no longer: a symbol that is cut leaves bytes that are no valid UTF-8.
unfoldable pub first_bytes : ℕ → Text → Text
unfolding bytes_of
first_bytes n [] = []
first_bytes n (c ∷ cs) =
    let rest = first_bytes (n - length (bytes_of c)) cs in
    if leb (length (bytes_of c)) n then c ∷ rest else map (λ b. 0x110000 + b) (take n (bytes_of c))

abbrev pub message_bytes : ℕ
message_bytes = 500

-- What `process` returns, and the tables after it
abbrev pub transitioned : Store → Outcome StoreError (CostumeItemPhoto × Store) → Bool × Store
transitioned s (ok (p, t)) = (true, t)
transitioned s (err e) = (false, s)

-- `process` after the images, with the error that they have met. PostgreSQL refuses a text that is
-- no valid UTF-8 or has the character 0.
unfoldable pub process : CostumeItemPhoto → Outcome Text (Unit {0}) → ℕ → Store → Bool × Store
unfolding first_bytes storable
process photo (ok u) now s = transitioned s (Photos.mark_ready photo.id now s)
process photo (err message) now s =
    if storable (first_bytes message_bytes message)
    then transitioned s (Photos.mark_failed photo.id (first_bytes message_bytes message) now s)
    else (false, s)

-- The steps of the dispatcher and of the workers.
pub data Work (s : Service) : Service → Type 0 where
  -- the sends of `notify` and `scheduleRetry` do not block: a full channel holds the signal already
  notify : {n : ℕ} → s.notifiers ≡ suc n → Work s (record s { notifiers = n; wake = true })
  wake_up :
      s.dispatcher ≡ idle → s.wake ≡ true → Work s (record s { dispatcher = listing; wake = false })
  retry_later :
      s.dispatcher ≡ idle
      → s.retry ≡ true
      → Work s (record s { dispatcher = waiting; retry = false })
  wait_over : s.dispatcher ≡ waiting → Work s (record s { dispatcher = listing })
  list :
      {photos : List CostumeItemPhoto} {t : Store}
      → s.dispatcher ≡ listing
      → Photos.list_pending queue_capacity s.store ≡ ok (photos, t)
      → Work s (record s { store = t; dispatcher = enqueuing photos })
  list_fails : s.dispatcher ≡ listing → Work s (record s { dispatcher = waiting })
  skip :
      {p : CostumeItemPhoto} {ps : List CostumeItemPhoto}
      → s.dispatcher ≡ enqueuing (p ∷ ps)
      → is_queued p.id s.queued ≡ true
      → Work s (record s { dispatcher = enqueuing ps })
  claim :
      {p : CostumeItemPhoto} {ps : List CostumeItemPhoto}
      → s.dispatcher ≡ enqueuing (p ∷ ps)
      → is_queued p.id s.queued ≡ false
      → Work s (record s { dispatcher = sending p ps; queued = p.id ∷ s.queued })
  send :
      {p : CostumeItemPhoto} {ps : List CostumeItemPhoto}
      → s.dispatcher ≡ sending p ps
      → length s.queue < queue_capacity
      → Work s (record s { dispatcher = enqueuing ps; queue = s.queue ++ p ∷ [] })
  rest : s.dispatcher ≡ enqueuing [] → Work s (record s { dispatcher = idle })
  receive :
      {p : CostumeItemPhoto} {ps : List CostumeItemPhoto}
      → s.queue ≡ p ∷ ps
      → length s.jobs < worker_count
      → Work s (record s { queue = ps; jobs = processing p ∷ s.jobs })
  settle :
      (before after : List Job) (p : CostumeItemPhoto) (images : Outcome Text (Unit {0})) (now : ℕ)
      → s.jobs ≡ before ++ processing p ∷ after
      → Work s (record s {
        store = (process p images now s.store).1;
        jobs = before ++ processed p (process p images now s.store).0 ∷ after;
      })
  -- the database does not answer
  settle_fails :
      (before after : List Job) (p : CostumeItemPhoto)
      → s.jobs ≡ before ++ processing p ∷ after
      → Work s (record s { jobs = before ++ processed p false ∷ after })
  clear :
      (before after : List Job) (p : CostumeItemPhoto) (done : Bool)
      → s.jobs ≡ before ++ processed p done ∷ after
      → Work s (record s { queued = remove p.id s.queued; jobs = before ++ cleared done ∷ after })
  signal :
      (before after : List Job) (done : Bool)
      → s.jobs ≡ before ++ cleared done ∷ after
      → Work s
          (record s { jobs = before ++ after; wake = s.wake || done; retry = s.retry || not done })

-- The steps of the service and of the requests around it.
pub data Step (s : Service) : Service → Type 0 where
  work : {t : Service} → Work s t → Step s t
  -- `Upload`, up to its `notify`
  create :
      (input : CreateCostumeItemPhotoInput) (now : ℕ) {photo : CostumeItemPhoto} {t : Store}
      → Photos.create input now s.store ≡ ok (photo, t)
      → Step s (record s { store = t; notifiers = suc s.notifiers })
  -- a statement about other tables
  elsewhere : {t : Store} → t.photos ≡ s.store.photos → Step s (record s { store = t })

pub data Reach (s : Service) : Service → Type 0 where
  here : Reach s s
  next : {t u : Service} → Reach s t → Step t u → Reach s u
