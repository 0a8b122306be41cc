-- ===== src/Web/CostumeItems/Forms.antt =====
-- The form of a costume item: what `validateForm` accepts, the repository creates.
use costume_tree.Common.{
  ℕ, ◌<◌, ◌≡◌, refl, sym, subst, ap, ◌∙◌, ◌≢◌, Bool, true, false, not, if◌then◌else◌, text,
  trim_space, is_empty_iff, is_empty-false, ◌&&◌, ◌||◌, Option, none, some, List, [], ◌∷◌, ◌++◌,
  ◌==◌, Outcome, ok, and_then-eq-ok, Text, text_eq, is_empty, ℤ, pos, negsuc, atoi, arith, All,
  find?, find?-sound,
}
use costume_tree.Storage.Models.{
  production, actor, item_type, Kind, Production, Actor, ItemType, CostumeItem,
  CreateCostumeItemInput, status_complete, status_find,
}
use costume_tree.Storage.Database.{
  Store, Sequence, is_none, found, pure, fail, is_production, is_actor, is_item_type,
}
use costume_tree.Storage.Productions
use costume_tree.Storage.Actors
use costume_tree.Storage.ItemTypes
use costume_tree.Storage.Items.{
  known_status, texts_storable, is_full, progress_in_range, workflow_ok, or_find, max_bigint,
}
use costume_tree.Storage.Codes.{CodesAreValid, sequence_value}
use costume_tree.Storage.Items.Creation.{CanCreate, created_item, with_created, create-succeeds}
use costume_tree.Web.CostumeItems.{
  WebError, Field, FormPhoto, CostumeItemFormView, read_by, check, scope, form_input,
  form_field_errors, photo_errors, accepted, error_if, checked_form, valid_progress,
  progress_or_zero, progress_text, is_active_type, uploaded, create_costume_item, item_type_field,
  actor_field, status_field, progress_field, production_archived, actor_archived,
}

pub check-ok : (b : Bool) (e : WebError) {u : Unit {0}} → check b e ≡ ok u → b ≡ true
check-ok true e h = refl
check-ok false e h = cc

pub active : (o : Option ℕ) → is_none o ≡ true → o ≡ none
active none h = refl
active (some t) h = cc

pub found-row {ℓ} :
    {A : Type ℓ} (k : Kind) (o : Option A) (s : Store) {a : A}
    → read_by (found k o s) ≡ ok a
    → o ≡ some a
unfolding found pure fail
found-row k none s h = cc
found-row k (some b) s h = cc

-- A scope has the rows of the tables, active.
pub record IsScope (production_id actor_id : ℕ) (s : Store) (p : Production) (a : Actor)
    : Type 0 where
  pub production_found : find? (is_production production_id) s.productions ≡ some p
  pub production_active : p.archived_at ≡ none
  pub actor_found : find? (is_actor production_id actor_id) s.actors ≡ some a
  pub actor_active : a.archived_at ≡ none

pub scope-IsScope :
    (production_id actor_id : ℕ) (s : Store) (p : Production) (a : Actor)
    → scope production_id actor_id s ≡ ok (p, a)
    → IsScope production_id actor_id s p a
unfolding scope Productions.get Actors.get
scope-IsScope production_id actor_id s p a h =
    let (p', q₁, h₁) =
      and_then-eq-ok
        (read_by (found production (find? (is_production production_id) s.productions) s)) _ h in
    let (u, q₂, h₂) = and_then-eq-ok (check (is_none p'.archived_at) production_archived) _ h₁ in
    let (a', q₃, h₃) =
      and_then-eq-ok (read_by (found actor (find? (is_actor production_id actor_id) s.actors) s)) _
        h₂ in
    let (v, q₄, h₄) = and_then-eq-ok (check (is_none a'.archived_at) actor_archived) _ h₃ in
    let same_p : p' ≡ p = cc in
    let same_a : a' ≡ a = cc in
    record {
      production_found = found-row production _ s q₁ ∙ ap (λ k. some k) same_p;
      production_active =
          subst (λ (k : Production). k.archived_at ≡ none) same_p (active _ (check-ok _ _ q₂));
      actor_found = found-row actor _ s q₃ ∙ ap (λ k. some k) same_a;
      actor_active =
          subst (λ (k : Actor). k.archived_at ≡ none) same_a (active _ (check-ok _ _ q₄));
    }

-- What an accepted form tells of its input.
pub record IsAccepted (p : Production) (a : Actor) (form : CostumeItemFormView) (s : Store)
    : Type 0 where
  pub known : known_status (form_input p a form).status ≡ true
  pub progress_valid : valid_progress (atoi (progress_text form.progress)) ≡ true
  pub in_range : progress_in_range (form_input p a form).progress ≡ true
  pub complete :
      (text_eq (form_input p a form).status status_complete
        && not (is_full (form_input p a form).progress))
      ≡ false
  pub item_type : ItemType
  pub type_found : find? (is_item_type p.id form.item_type_id) s.item_types ≡ some item_type
  pub type_active : item_type.archived_at ≡ none

not-false : (b : Bool) → not b ≡ false → b ≡ true
not-false b h = ground arith

ok_injective : {A : Type 0} (o : Outcome WebError A) {a b : A} → o ≡ ok a → o ≡ ok b → a ≡ b
ok_injective o h k = cc

accepted-nil : (fs : List Field) {u : Unit {0}} → accepted fs ≡ ok u → fs ≡ []
accepted-nil [] h = refl
accepted-nil (f ∷ fs) h = cc

append-eq-nil {ℓ} : {A : Type ℓ} (xs ys : List A) → xs ++ ys ≡ [] → xs ≡ []
append-eq-nil [] ys h = refl
append-eq-nil (x ∷ xs) ys h = cc

error_if-nil :
    (b : Bool) (f : Field) (rest : List Field)
    → error_if b f ++ rest ≡ []
    → (b ≡ false) × (rest ≡ [])
error_if-nil true f rest h = cc
error_if-nil false f rest h = (refl, h)

error_if-none : (b : Bool) (f : Field) → error_if b f ≡ [] → b ≡ false
error_if-none true f h = cc
error_if-none false f h = refl

progress-in_range :
    (z : Option ℤ) → valid_progress z ≡ true → progress_in_range (progress_or_zero z) ≡ true
progress-in_range none h = cc
progress-in_range (some (pos n)) h = rw h h
progress-in_range (some (negsuc n)) h = cc

active_type :
    (o : Option ItemType) (s : Store)
    → is_active_type (found item_type o s) ≡ true
    → (t : ItemType) × (o ≡ some t) × (t.archived_at ≡ none)
unfolding found pure fail
active_type none s h = cc
active_type (some t) s h = (t, refl, active _ h)

checked_form-IsAccepted :
    (p : Production) (a : Actor) (form : CostumeItemFormView) (photo : Option FormPhoto) (s : Store)
    (input : CreateCostumeItemInput)
    → checked_form p a form photo s ≡ ok input
    → IsAccepted p a form s × (form_input p a form ≡ input)
unfolding checked_form form_field_errors ItemTypes.get
checked_form-IsAccepted p a form photo s input h =
    let made = form_input p a form in
    let (u, clean, h₁) =
      and_then-eq-ok (accepted (form_field_errors p a form s ++ photo_errors photo)) _ h in
    let none_wrong =
      append-eq-nil (form_field_errors p a form s) (photo_errors photo) (accepted-nil _ clean) in
    let (e₁, r₁) =
      error_if-nil (not (form.actor_id == 0) && not (form.actor_id == a.id)) actor_field _
        none_wrong in
    let (e₂, r₂) = error_if-nil (not (known_status made.status)) status_field _ r₁ in
    let (e₃, r₃) =
      error_if-nil (not (valid_progress (atoi (progress_text form.progress)))) progress_field _
        r₂ in
    let (e₄, r₄) =
      error_if-nil (text_eq made.status status_complete && not (is_full made.progress))
        progress_field _ r₃ in
    let e₅ = error_if-none _ item_type_field r₄ in
    let typed : is_active_type
          (found item_type (find? (is_item_type p.id form.item_type_id) s.item_types) s)
        ≡ true =
      ground arith in
    let (t, there, active_now) = active_type _ s typed in
    let status_known : known_status made.status ≡ true = not-false _ e₂ in
    (
      record {
        known = status_known;
        progress_valid = not-false _ e₃;
        in_range = progress-in_range (atoi (progress_text form.progress)) (not-false _ e₃);
        complete = e₄;
        item_type = t;
        type_found = there;
        type_active = active_now;
      },
      ok_injective _ refl h₁,
    )

not_empty : (status : Text) → known_status status ≡ true → or_find status ≡ status
unfolding text_eq is_empty
not_empty [] h = cc
not_empty (c ∷ cs) h = refl

form-workflow :
    (p : Production) (a : Actor) (form : CostumeItemFormView) (s : Store)
    → IsAccepted p a form s
    → workflow_ok (or_find (form_input p a form).status) (form_input p a form).progress ≡ true
form-workflow p a form s h =
    let status = (form_input p a form).status in
    let progress = (form_input p a form).progress in
    ap (λ k. workflow_ok k progress) (not_empty status h.known)
    ∙ checks (known_status status) (progress_in_range progress) (text_eq status status_complete)
        (is_full progress) h.known h.in_range h.complete
  where
    checks :
        (b c d e : Bool)
        → b ≡ true
        → c ≡ true
        → (d && not e) ≡ false
        → (b && (c && (not d || e))) ≡ true
    checks b c d e p q r = ground arith

-- The strings of an input are texts of the database.
abbrev pub are_texts : CreateCostumeItemInput → Bool
are_texts input =
    texts_storable input.description input.status input.next_action input.blocker input.notes

form-CanCreate :
    (production_id actor_id : ℕ) (s : Store) (p : Production) (a : Actor)
    (form : CostumeItemFormView)
    → IsScope production_id actor_id s p a
    → IsAccepted p a form s
    → are_texts (form_input p a form) ≡ true
    → CodesAreValid s.items s.sequences
    → All (λ (i : CostumeItem). i.id < s.next_item) s.items
    → sequence_value s.sequences p.id < max_bigint
    → CanCreate (form_input p a form) s
unfolding form_input
form-CanCreate production_id actor_id s p a form scoped accepted texts codes ids left =
    let here : p.id ≡ production_id =
      ground
        (arith, find?-sound (is_production production_id) s.productions scoped.production_found) in
    let this = find?-sound (is_actor production_id actor_id) s.actors scoped.actor_found in
    let at : a.id ≡ actor_id = ground arith in
    let input = form_input p a form in
    record {
      p = p;
      production_found =
          subst (λ k. find? (is_production k) s.productions ≡ some p) (sym here)
            scoped.production_found;
      production_active = scoped.production_active;
      a = a;
      actor_found =
          subst (λ k. find? (is_actor k a.id) s.actors ≡ some a) (sym here)
            (subst (λ k. find? (is_actor production_id k) s.actors ≡ some a) (sym at)
              scoped.actor_found);
      actor_active = scoped.actor_active;
      t = accepted.item_type;
      type_found = accepted.type_found;
      type_active = accepted.type_active;
      texts =
          ap
            (λ status.
              texts_storable input.description status input.next_action input.blocker input.notes)
            (not_empty input.status accepted.known)
          ∙ texts;
      workflow = form-workflow p a form s accepted;
      codes = codes;
      ids = ids;
      sequence_left = left;
    }

-- An input that has the values of a form, column by column.
pub record IsOfForm (p : Production) (a : Actor) (form : CostumeItemFormView)
    (input : CreateCostumeItemInput) : Type 0 where
  pub of_production : input.production_id ≡ p.id
  pub of_actor : input.actor_id ≡ a.id
  pub of_type : input.item_type_id ≡ form.item_type_id
  pub description : input.description ≡ trim_space form.description
  pub given_status : trim_space form.status ≢ [] → input.status ≡ trim_space form.status
  pub no_status : trim_space form.status ≡ [] → input.status ≡ status_find
  pub given_progress :
      trim_space form.progress ≢ [] → atoi (trim_space form.progress) ≡ some input.progress
  pub no_progress : trim_space form.progress ≡ [] → input.progress ≡ pos 0
  pub next_action : input.next_action ≡ trim_space form.next_action
  pub blocker : input.blocker ≡ trim_space form.blocker
  pub notes : input.notes ≡ form.notes

progress-read : (o : Option ℤ) → valid_progress o ≡ true → o ≡ some (progress_or_zero o)
progress-read none h = cc
progress-read (some (pos n)) h = rw h refl
progress-read (some (negsuc n)) h = cc

zero_read : progress_or_zero (atoi (text "0")) ≡ pos 0
unfolding atoi
zero_read = refl

form_input-IsOfForm :
    (p : Production) (a : Actor) (form : CostumeItemFormView)
    → valid_progress (atoi (progress_text form.progress)) ≡ true
    → IsOfForm p a form (form_input p a form)
unfolding form_input
form_input-IsOfForm p a form valid = record {
  of_production = refl;
  of_actor = refl;
  of_type = refl;
  description = refl;
  given_status = λ ne. rw (is_empty-false _ ne) refl;
  no_status = λ e. rw ((is_empty_iff _).1 e) refl;
  given_progress = λ ne.
      ap atoi (sym (given (is_empty (trim_space form.progress)) (is_empty-false _ ne)))
      ∙ progress-read (atoi (progress_text form.progress)) valid;
  no_progress = λ e.
      ap (λ s. progress_or_zero (atoi s))
        (missing (is_empty (trim_space form.progress)) ((is_empty_iff _).1 e))
      ∙ zero_read;
  next_action = refl;
  blocker = refl;
  notes = refl;
}
  where
    given :
        (b : Bool)
        → b ≡ false
        → (if b then text "0" else trim_space form.progress) ≡ trim_space form.progress
    given b h = rw h refl

    missing : (b : Bool) → b ≡ true → (if b then text "0" else trim_space form.progress) ≡ text "0"
    missing b h = rw h refl

-- A form that passes `validateForm` in an active scope, and whose strings are texts of the database, is
-- created: in tables whose codes are valid and
-- whose item ids are below the next one, with a value left in the production's sequence, no constraint
-- refuses it. The input that the form makes has its values: the trimmed texts, the notes as they are,
-- Find and 0 for an empty status and progress. The item has that input's columns and the next code,
-- and the photo's upload is all that follows.
pub create_costume_item-succeeds :
    (production_id actor_id : ℕ) (form : CostumeItemFormView) (photo : Option FormPhoto) (now : ℕ)
    (s : Store) (p : Production) (a : Actor) (input : CreateCostumeItemInput)
    → scope production_id actor_id s ≡ ok (p, a)
    → checked_form p a form photo s ≡ ok input
    → are_texts input ≡ true
    → CodesAreValid s.items s.sequences
    → All (λ (i : CostumeItem). i.id < s.next_item) s.items
    → sequence_value s.sequences p.id < max_bigint
    → IsOfForm p a form input
      × (qs : List Sequence) × (create_costume_item production_id actor_id form photo now s ≡ (
        ok (created_item input now s),
        uploaded photo (created_item input now s) (with_created input now qs s),
      ))
unfolding create_costume_item
create_costume_item-succeeds production_id actor_id form photo now s p a input scoped checked texts
      codes ids left =
    let (accepted, same) = checked_form-IsAccepted p a form photo s input checked in
    let ofs =
      subst (IsOfForm p a form) same (form_input-IsOfForm p a form accepted.progress_valid) in
    let can =
      form-CanCreate production_id actor_id s p a form
        (scope-IsScope production_id actor_id s p a scoped) accepted (ap are_texts same ∙ texts)
        codes ids left in
    let (qs, created) = create-succeeds input now s (subst (λ k. CanCreate k s) same can) in
    (ofs, qs, rw (scoped, checked, created) refl)
