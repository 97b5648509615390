-- ===== src/Class/Inherited.antt =====
-- What a class makes of the fields of its superclass in `linkFields` of src/vm/Class.cpp: they are placed
-- anew, in the order in which the superclass's table is iterated.
use geevm.Prelude.{ℕ, ◌+◌, ◌≡◌, sym, true, false, none, List, [], ◌∷◌, ◌++◌, ap, ◌∙◌, append-nil}
use geevm.Prelude.{append_assoc}
use geevm.Descriptor.Slots.{size_of}
use geevm.GarbageCollector.{align_to}
use geevm.Class.{JField, find_field, try_emplace, place, link_inherited}

abbrev pub instance_fields : List JField → List JField
instance_fields [] = []
instance_fields (f ∷ fs) = elim f.is_static [
  | true ↦ instance_fields fs
  | false ↦ f ∷ instance_fields fs
]

-- Each instance field stands at the first place that is aligned to its size behind those in front of it
-- in the list, from `start` to `end`.
pub data InOrder : ℕ → List JField → ℕ → Type 0 where
  no_more : {start : ℕ} → InOrder start [] start
  static_field :
      {start end : ℕ} {f : JField} {fs : List JField}
      → f.is_static ≡ true
      → InOrder start fs end
      → InOrder start (f ∷ fs) end
  instance_field :
      {start end : ℕ} {f : JField} {fs : List JField}
      → f.is_static ≡ false
      → f.offset ≡ align_to start (size_of f.field_type)
      → InOrder (f.offset + size_of f.field_type) fs end
      → InOrder start (f ∷ fs) end

-- No instance field has the key of one in front of it, or of one of `fields`.
abbrev pub AreNew : List JField → List JField → Type 0
AreNew fields [] = Unit
AreNew fields (f ∷ fs) = elim f.is_static [
  | true ↦ AreNew fields fs
  | false ↦ (find_field f.name f.descriptor fields ≡ none) × AreNew (fields ++ f ∷ []) fs
]

place-InOrder :
    (f : JField) (fields : List JField) (start : ℕ)
    → find_field f.name f.descriptor fields ≡ none
    → f.offset ≡ align_to start (size_of f.field_type)
    → place f (fields, start) ≡ (fields ++ f ∷ [], f.offset + size_of f.field_type)
unfolding place try_emplace
place-InOrder f fields start fresh at =
    rw (place, try_emplace, fresh)
      (ap (λ o. (fields ++ record f { offset = o } ∷ [], o + size_of f.field_type)) (sym at))

-- Where the superclass's fields are iterated in the order in which they lie in its objects, and no key of
-- an instance field is there already, the class inherits every instance field with its offset, and its
-- own fields follow behind.
pub link_inherited-InOrder :
    (fs fields : List JField) (start end : ℕ)
    → InOrder start fs end
    → AreNew fields fs
    → link_inherited fs (fields, start) ≡ (fields ++ instance_fields fs, end)
unfolding link_inherited
link_inherited-InOrder [] fields start end no_more new =
    ap (λ x. (x, start)) (sym (append-nil fields))
link_inherited-InOrder (f ∷ fs) fields start end (static_field s h) new =
    rw (link_inherited, s) (link_inherited-InOrder fs fields start end h (rw s at new))
link_inherited-InOrder (f ∷ fs) fields start end (instance_field s at h) new =
    let (fresh, rest) : (find_field f.name f.descriptor fields ≡ none)
        × AreNew (fields ++ f ∷ []) fs =
      rw s at new in
    rw (link_inherited, s, place-InOrder f fields start fresh at)
      (link_inherited-InOrder fs (fields ++ f ∷ []) _ end h rest
        ∙ ap (λ x. (x, end)) (append_assoc fields (f ∷ []) (instance_fields fs)))
