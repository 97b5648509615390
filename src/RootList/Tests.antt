-- ===== src/RootList/Tests.antt =====
-- A list of src/vm/RootList.cpp with three nodes.
use geevm.Prelude.{ℕ, ◌≡◌, refl, ◌==◌, if◌then◌else◌, Option, none, some, [], ◌∷◌, ok, arith}
use geevm.RootList.{Node, Store, RootList, insert, remove, delete_from}
use geevm.RootList.Links.{Entries, IsLinked, SameOff}
use geevm.RootList.Editing.{insert-IsLinked, remove-IsLinked}
use geevm.RootList.Deletion.{AllFreed, delete_from-AllFreed}

abbrev node : ℕ → Option ℕ → Option ℕ → Option Node
node i next prev = some (record { instance_at = i; next = next; prev = prev })

abbrev three : RootList
three = record {
  store = λ a.
      if a == 10
      then node 1 (some 20) none
      else if a == 20
      then node 2 (some 30) (some 10)
      else if a == 30
      then node 3 none (some 20)
      else none;
  head = some 10;
}

abbrev entries : Entries
entries = (10, 1) ∷ (20, 2) ∷ (30, 3) ∷ []

three-IsLinked : IsLinked three entries
three-IsLinked = record {
  head_is = refl;
  chain = (refl, (refl, (refl, tt)));
  distinct = ((λ e. omega arith, (λ e. omega arith, tt)), ((λ e. omega arith, tt), (tt, tt)));
}

insert-IsLinked_example :
    (l : RootList) × (insert 40 4 three ≡ ok l) × IsLinked l ((40, 4) ∷ entries)
insert-IsLinked_example =
    insert-IsLinked 40 4 three entries
      (λ e. omega arith, (λ e. omega arith, (λ e. omega arith, tt))) three-IsLinked

remove-IsLinked_example :
    (l : RootList) × (remove (some 20) three ≡ ok l)
    × IsLinked l ((10, 1) ∷ (30, 3) ∷ [])
    × (l.store 20 ≡ none)
remove-IsLinked_example = remove-IsLinked ((10, 1) ∷ []) ((30, 3) ∷ []) 20 2 three three-IsLinked

delete_from-AllFreed_example :
    (s : Store) × (delete_from 3 (some 10) three.store ≡ ok s)
    × AllFreed s entries
    × SameOff entries three.store s
delete_from-AllFreed_example = delete_from-AllFreed three entries three-IsLinked
