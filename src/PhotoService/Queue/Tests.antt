-- ===== src/PhotoService/Queue/Tests.antt =====
-- A photo on its way through the service.
use costume_tree.Common.{
  ℕ, zero, suc, ◌≡◌, refl, ◌⊎◌, true, false, List, [], ◌∷◌, ◌++◌, ok, err, Text, text, arith,
  is_empty, trim_space, text_eq, sort_by,
}
use costume_tree.Storage.Models.{CostumeItemPhoto, photo_status_pending, photo_status_ready}
use costume_tree.Storage.Database.{Store, guard, ◌>>=◌}
use costume_tree.Storage.Photos
use costume_tree.PhotoService.Queue.{
  Service, queue_capacity, start, processing, processed, is_queued, remove, process, Work, wake_up,
  list, claim, send, rest, receive, settle, clear, signal, work, Reach, here, next,
}
use costume_tree.PhotoService.Queue.Claims.{IsClaimed, Reach-IsClaimed}
use costume_tree.PhotoService.Queue.Wakes.{pending_count}
use costume_tree.PhotoService.Queue.Quiet.{IsAtRest, rest-none_pending, progress}
use costume_tree.PhotoService.Queue.Messages.{process-cut_message}

abbrev photo : CostumeItemPhoto
photo = record {
  id = 1;
  production_id = 1;
  costume_item_id = 1;
  original_name = text "C-0001-a.jpg";
  display_name = text "C-0001-a-display.jpg";
  thumbnail_name = text "C-0001-a-thumb.jpg";
  media_type = text "image/jpeg";
  status = photo_status_pending;
  error_message = [];
  created_at = 5;
  updated_at = 5;
}

abbrev with_photos : List CostumeItemPhoto → Store
with_photos photos = record {
  productions = [];
  actors = [];
  item_types = [];
  sequences = [];
  items = [];
  photos = photos;
  next_production = 2;
  next_actor = 2;
  next_item_type = 2;
  next_item = 2;
  next_photo = 2;
}

abbrev with_photo : Store
with_photo = with_photos (photo ∷ [])

abbrev ready_photo : CostumeItemPhoto
ready_photo = Photos.with_status photo_status_ready [] 9 photo

abbrev with_ready : Store
with_ready = with_photos (ready_photo ∷ [])

process-photo : process photo (ok tt) 9 with_photo ≡ (true, with_ready)
unfolding process Photos.mark_ready Photos.transition ◌>>=◌ guard text_eq Photos.transition_pending
    Photos.scan_costume_item_photo Photos.validate_photo_filename is_empty trim_space
process-photo = refl

list-photo : Photos.list_pending queue_capacity with_photo ≡ ok (photo ∷ [], with_photo)
unfolding Photos.list_pending ◌>>=◌ guard Photos.read_pending sort_by text_eq
    Photos.scan_costume_item_photo Photos.validate_photo_filename is_empty trim_space
list-photo = refl

list-none : Photos.list_pending queue_capacity with_ready ≡ ok ([], with_ready)
unfolding Photos.list_pending ◌>>=◌ guard Photos.read_pending sort_by text_eq
list-none = refl

-- The photo is with a worker, and an upload's signal has come.
abbrev working : Service
working = record (start with_photo) { wake = false; queued = 1 ∷ []; jobs = processing photo ∷ [] }

abbrev rested : Service
rested = record (start with_ready) { wake = false }

taken : Reach (start with_photo) working
unfolding start is_queued
taken =
    next
      (next
        (next
          (next (next (next here (work (wake_up refl refl))) (work (list refl list-photo)))
            (work (claim refl refl)))
          (work (send refl (omega arith))))
        (work (rest refl)))
      (work (receive refl (omega arith)))

Reach-IsClaimed_example : IsClaimed working
Reach-IsClaimed_example = Reach-IsClaimed with_photo taken

settled : Service
unfolding start
settled = record (start with_ready) {
  wake = false;
  queued = 1 ∷ [];
  jobs = processed photo true ∷ [];
}

settle-photo : Work working settled
unfolding start settled process Photos.mark_ready Photos.transition ◌>>=◌ guard text_eq
    Photos.transition_pending Photos.scan_costume_item_photo Photos.validate_photo_filename is_empty
    trim_space
settle-photo = settle [] [] photo (ok tt) 9 refl

finished : Reach settled rested
unfolding start settled remove
finished =
    next
      (next
        (next
          (next (next here (work (clear [] [] photo true refl))) (work (signal [] [] true refl)))
          (work (wake_up refl refl)))
        (work (list refl list-none)))
      (work (rest refl))

Reach-append : {s t u : Service} → Reach s t → Reach t u → Reach s u
Reach-append r here = r
Reach-append r (next q st) = next (Reach-append r q) st

rested-IsAtRest : IsAtRest rested
unfolding start
rested-IsAtRest = record {
  dispatcher = refl;
  wake = refl;
  retry = refl;
  notifiers = refl;
  queue = refl;
  jobs = refl;
}

rest-none_pending_example : (pending_count rested.store ≡ 0) × (rested.queued ≡ [])
rest-none_pending_example =
    rest-none_pending with_photo (Reach-append (next taken (work settle-photo)) finished)
      rested-IsAtRest

progress_example : IsAtRest working ⊎ ((t : Service) × Work working t)
progress_example = progress working

abbrev repeat : ℕ → ℕ → Text
repeat zero c = []
repeat (suc n) c = c ∷ repeat n c

process-cut_message_example :
    process photo (err (repeat 499 97 ++ 233 ∷ text "t")) 9 with_photo ≡ (false, with_photo)
process-cut_message_example =
    process-cut_message photo (repeat 499 97) 233 (text "t") 9 with_photo refl (omega arith)
      (omega arith) (omega arith)
