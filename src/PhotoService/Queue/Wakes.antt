-- ===== src/PhotoService/Queue/Wakes.antt =====
-- The photo service loses no wake-up.
use costume_tree.Common.{
  ℕ, suc, ◌≤◌, ◌≡◌, refl, sym, ap, ◌∙◌, ◌⊎◌, inl, inr, Bool, true, false, not, ◌||◌, none, some,
  List, [], ◌∷◌, ◌++◌, ltb, arith, find?, select, take, sort_by, count_where, Bool-cases, Outcome,
  ok, err, Outcome-cases, Text, storable, count_where-sort_by,
}
use costume_tree.Storage.Models.{
  CostumeItemPhoto, limit_not_positive, photo_status_ready, photo_status_failed,
}
use costume_tree.Storage.Database.{Store, guard, pure}
use costume_tree.Storage.Keeps.{>>=-eq-ok}
use costume_tree.Storage.Photos
use costume_tree.Storage.Photos.{
  is_pending, is_pending_photo, is_photo, with_status, by_age, scan_all, read_pending, list_pending,
  scan_costume_item_photo, transition,
}
use costume_tree.Storage.Photos.Transitions.{transition-ok}
use costume_tree.PhotoService.Queue.{
  Dispatcher, idle, waiting, listing, enqueuing, sending, Job, processing, processed, cleared,
  Service, queue_capacity, start, is_queued, transitioned, message_bytes, first_bytes, process,
  Work, notify, wake_up, retry_later, wait_over, list, list_fails, skip, claim, send, rest, receive,
  settle, settle_fails, clear, signal, Step, work, create, elsewhere, Reach, here, next,
}
use costume_tree.PhotoService.Queue.Claims.{IsClaimed, Reach-IsClaimed, count, sending_count}

-- How many photos of the database are pending.
abbrev pub pending_count : Store → ℕ
pending_count s = count_where is_pending s.photos

-- A dispatcher that will still list, or has met a photo.
abbrev pub is_active : Dispatcher → Bool
is_active idle = false
is_active waiting = true
is_active listing = true
is_active (enqueuing []) = false
is_active (enqueuing (p ∷ ps)) = true
is_active (sending p ps) = true

abbrev pub has_cleared : List Job → Bool
has_cleared [] = false
has_cleared (processing p ∷ jobs) = has_cleared jobs
has_cleared (processed p done ∷ jobs) = has_cleared jobs
has_cleared (cleared done ∷ jobs) = true

abbrev pub is_nil {ℓ} : {A : Type ℓ} → List A → Bool
is_nil [] = true
is_nil (x ∷ xs) = false

-- Something is under way that lists the pending photos again.
abbrev pub is_live : Service → Bool
is_live s =
    s.wake
    || (s.retry
        || (ltb 0 s.notifiers
            || (is_active s.dispatcher || (has_cleared s.jobs || not (is_nil s.queued)))))

-- No wake-up is lost: photos are pending only while something lists them again.
abbrev pub IsAwake : Service → Type 0
IsAwake s = (is_live s ≡ true) ⊎ (pending_count s.store ≡ 0)

has_cleared-middle :
    (before after : List Job) (done : Bool) → has_cleared (before ++ cleared done ∷ after) ≡ true
has_cleared-middle [] after done = refl
has_cleared-middle (processing p ∷ before) after done = has_cleared-middle before after done
has_cleared-middle (processed p d ∷ before) after done = has_cleared-middle before after done
has_cleared-middle (cleared d ∷ before) after done = refl

has_cleared-settled :
    (before after : List Job) (p : CostumeItemPhoto) (done : Bool)
    → has_cleared (before ++ processed p done ∷ after)
      ≡ has_cleared (before ++ processing p ∷ after)
has_cleared-settled [] after p done = refl
has_cleared-settled (processing q ∷ before) after p done = has_cleared-settled before after p done
has_cleared-settled (processed q d ∷ before) after p done = has_cleared-settled before after p done
has_cleared-settled (cleared d ∷ before) after p done = refl

is_queued-nil : (id : ℕ) (ids : List ℕ) → is_queued id ids ≡ true → is_nil ids ≡ false
unfolding is_queued
is_queued-nil id [] h = cc
is_queued-nil id (k ∷ ids) h = refl

pure-nil {ℓ} : {A : Type ℓ} (x : A) (xs : List A) (s t : Store) → pure (x ∷ xs) s ≡ ok ([], t) → ⊥
unfolding pure
pure-nil x xs s t h = cc

scan_all-nil :
    (rows : List CostumeItemPhoto) (s t : Store)
    → scan_all rows s ≡ ok ([], t)
    → (rows ≡ []) × (t ≡ s)
unfolding scan_all pure
scan_all-nil [] s t h = (refl, cc)
scan_all-nil (row ∷ rows) s t h =
    let (photo, r, e₁, e₂) = >>=-eq-ok (scan_costume_item_photo row) _ s h in
    let (photos, r', e₃, e₄) = >>=-eq-ok (scan_all rows) _ r e₂ in
    absurd (pure-nil photo photos r' t e₄)

take-suc-nil {ℓ} : {A : Type ℓ} (n : ℕ) (xs : List A) → take (suc n) xs ≡ [] → xs ≡ []
take-suc-nil n [] h = refl
take-suc-nil n (x ∷ xs) h = cc

any-nil {ℓ} : {A : Type ℓ} (xs : List A) → count_where (λ x. true) xs ≡ 0 → xs ≡ []
any-nil [] h = refl
any-nil (x ∷ xs) h = absurd (omega arith)

select-nil {ℓ} : {A : Type ℓ} (p : A → Bool) (xs : List A) → select p xs ≡ [] → count_where p xs ≡ 0
select-nil p [] h = refl
select-nil p (x ∷ xs) h = elim (Bool-cases (p x)) [
  | inl e ↦ let bad = rw e at h in cc
  | inr e ↦ rw e (omega (arith, select-nil p xs (rw e at h)))
]

-- A listing without a photo tells that none is pending.
list_pending-nil : (s t : Store) → list_pending queue_capacity s ≡ ok ([], t) → pending_count t ≡ 0
unfolding list_pending read_pending
list_pending-nil s t h =
    let (u, r, e₁, e₂) = >>=-eq-ok (guard true limit_not_positive) _ s h in
    let rows : List CostumeItemPhoto = select is_pending r.photos in
    let (nil, same) = scan_all-nil (take queue_capacity (sort_by by_age rows)) r t e₂ in
    let sorted = take-suc-nil 63 (sort_by by_age rows) nil in
    let none_pending =
      any-nil rows
        (sym (count_where-sort_by (λ x. true) by_age rows) ∙ ap (count_where (λ x. true)) sorted) in
    ap pending_count same ∙ select-nil is_pending r.photos none_pending

find?-none_pending :
    (id : ℕ) (photos : List CostumeItemPhoto)
    → count_where is_pending photos ≡ 0
    → find? (is_pending_photo id) photos ≡ none
find?-none_pending id [] h = refl
find?-none_pending id (p ∷ photos) h = elim (Bool-cases (is_pending p)) [
  | inl e ↦ absurd (ground arith)
  | inr e ↦
      let fewer : count_where is_pending photos ≡ 0 = ground arith in
      elim (Bool-cases (is_photo id p)) [
        | inl k ↦ rw (k, e) (find?-none_pending id photos fewer)
        | inr k ↦ rw k (find?-none_pending id photos fewer)
      ]
]

transitioned-pending :
    (id : ℕ) (status message : Text) (now : ℕ) (s : Store)
    → pending_count s ≡ 0
    → pending_count (transitioned s (transition id status message now s)).1 ≡ 0
transitioned-pending id status message now s h =
    elim (Outcome-cases (transition id status message now s)) [
      | inr (e, q) ↦ rw q h
      | inl ((p, t), q) ↦
          let made = transition-ok id status message now s t p q in
          let missing = find?-none_pending id s.photos h in
          let bad : some made.photo ≡ none = sym made.was_pending ∙ missing in absurd (cc)
    ]

-- The work on a photo makes none pending.
process-pending :
    (p : CostumeItemPhoto) (images : Outcome Text (Unit {0})) (now : ℕ) (s : Store)
    → pending_count s ≡ 0
    → pending_count (process p images now s).1 ≡ 0
unfolding process Photos.mark_ready Photos.mark_failed
process-pending p (ok u) now s h = transitioned-pending p.id photo_status_ready [] now s h
process-pending p (err message) now s h =
    elim (Bool-cases (storable (first_bytes message_bytes message))) [
      | inl v ↦ rw v (
          transitioned-pending p.id photo_status_failed (first_bytes message_bytes message) now s h)
      | inr v ↦ rw v h
    ]

sending_queued :
    (s : Service) (p : CostumeItemPhoto) (ps : List CostumeItemPhoto)
    → IsClaimed s
    → s.dispatcher ≡ sending p ps
    → is_nil s.queued ≡ false
sending_queued s p ps h e =
    nonempty s.queued (ground (arith, h.matches p.id, ap (sending_count p.id) e))
  where
    nonempty : (ids : List ℕ) → 1 ≤ count p.id ids → is_nil ids ≡ false
    nonempty [] le = absurd (omega arith)
    nonempty (k ∷ ids) le = refl

Work-IsAwake : {s t : Service} → Work s t → IsClaimed s → IsAwake s → IsAwake t
Work-IsAwake {s} (notify e) c h = inl refl
Work-IsAwake {s} (wake_up e w) c h = inl (ground arith)
Work-IsAwake {s} (retry_later e w) c h = inl (ground arith)
Work-IsAwake {s} (wait_over e) c h = inl (ground arith)
Work-IsAwake {s} (list {photos} {t} e q) c h = listed photos q
  where
    listed :
        (photos : List CostumeItemPhoto)
        → list_pending queue_capacity s.store ≡ ok (photos, t)
        → IsAwake (record s { store = t; dispatcher = enqueuing photos })
    listed [] q = inr (list_pending-nil s.store t q)
    listed (p ∷ ps) q = inl (ground arith)
Work-IsAwake {s} (list_fails e) c h = inl (ground arith)
Work-IsAwake {s} (skip {p} {ps} e q) c h =
    let n = is_queued-nil p.id s.queued q in inl (ground arith)
Work-IsAwake {s} (claim {p} {ps} e q) c h = inl (ground arith)
Work-IsAwake {s} (send {p} {ps} e q) c h = let n = sending_queued s p ps c e in inl (ground arith)
Work-IsAwake {s} (rest e) c h = let a = ap is_active e in ground arith
Work-IsAwake {s} (receive {p} {ps} e q) c h = h
Work-IsAwake {s} (settle before after p images now e) c h =
    let same = has_cleared-settled before after p (process p images now s.store).0 in
    let old = ap has_cleared e in
    elim h [ inl l ↦ inl (ground arith) | inr z ↦ inr (process-pending p images now s.store z) ]
Work-IsAwake {s} (settle_fails before after p e) c h =
    let same = has_cleared-settled before after p false in
    let old = ap has_cleared e in ground arith
Work-IsAwake {s} (clear before after p done e) c h =
    let there = has_cleared-middle before after done in inl (ground arith)
Work-IsAwake {s} (signal before after done e) c h = inl (ground arith)

Step-IsAwake : {s t : Service} → Step s t → IsClaimed s → IsAwake s → IsAwake t
Step-IsAwake (work w) c h = Work-IsAwake w c h
Step-IsAwake {s} (create input now e) c h = inl (ground arith)
Step-IsAwake {s} (elsewhere {t} e) c h = elim h [
  | inl l ↦ inl l
  | inr z ↦ inr (ap (count_where is_pending) e ∙ z)
]

pub Reach-IsAwake : (store : Store) {s : Service} → Reach (start store) s → IsAwake s
unfolding start
Reach-IsAwake store here = inl refl
Reach-IsAwake store (next r st) = Step-IsAwake st (Reach-IsClaimed store r) (Reach-IsAwake store r)
