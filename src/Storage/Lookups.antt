-- ===== src/Storage/Lookups.antt =====
-- The methods and statements that only read.
use costume_tree.Common.{Bool, ℕ, Text}
use costume_tree.Storage.Models.{CostumeItemPhoto, CreateCostumeItemPhotoInput}
use costume_tree.Storage.Keeps.{Reads, Reads-found, keeps_rules}
use costume_tree.Storage.Productions
use costume_tree.Storage.Actors
use costume_tree.Storage.ItemTypes
use costume_tree.Storage.Items
use costume_tree.Storage.Photos

pub Reads-get_production : (id : ℕ) → Reads (Productions.get id)
unfolding Productions.get
Reads-get_production id = record { same = λ s a t. (Reads-found _ _).same s a t }

pub Reads-get_actor : (p id : ℕ) → Reads (Actors.get p id)
unfolding Actors.get
Reads-get_actor p id = record { same = λ s a t. (Reads-found _ _).same s a t }

pub Reads-get_item_type : (p id : ℕ) → Reads (ItemTypes.get p id)
unfolding ItemTypes.get
Reads-get_item_type p id = record { same = λ s a t. (Reads-found _ _).same s a t }

pub Reads-get_item : (p id : ℕ) → Reads (Items.get p id)
unfolding Items.get
Reads-get_item p id = record { same = λ s a t. (Reads-found _ _).same s a t }

pub Reads-validate_photo_filename : (name : Text) → Reads (Photos.validate_photo_filename name)
unfolding Photos.validate_photo_filename
Reads-validate_photo_filename name = search keeps_rules

pub Reads-validate_photo_input :
    (i : CreateCostumeItemPhotoInput) → Reads (Photos.validate_photo_input i)
unfolding Photos.validate_photo_input
Reads-validate_photo_input i = search (keeps_rules, Reads-validate_photo_filename)

pub Reads-scan_photo : (p : CostumeItemPhoto) → Reads (Photos.scan_costume_item_photo p)
unfolding Photos.scan_costume_item_photo
Reads-scan_photo p = search (keeps_rules, Reads-validate_photo_filename) depth 8

pub Reads-read_photo : (f : CostumeItemPhoto → Bool) → Reads (Photos.read_photo f)
unfolding Photos.read_photo
Reads-read_photo f = record { same = λ s a t. (Reads-found _ _).same s a t }

pub ruleset lookup_rules = (
  keeps_rules, Reads-get_production, Reads-get_actor, Reads-get_item_type, Reads-get_item,
  Reads-validate_photo_input, Reads-scan_photo, Reads-read_photo,
)
