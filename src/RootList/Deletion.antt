-- ===== src/RootList/Deletion.antt =====
-- That the destructor of src/vm/RootList.cpp frees the nodes of its list.
use geevm.Prelude.{ℕ, ◌≡◌, refl, ◌∙◌, Option, none, some, [], ◌∷◌, length, ok}
use geevm.RootList.{Store, put, RootList, node_at, delete_from}
use geevm.RootList.Links.{Entries, first_of, Distinct, Chain, IsLinked, SameOff, put_self, put-ne}
use geevm.RootList.Links.{Chain-put}

abbrev pub AllFreed : Store → Entries → Type 0
AllFreed s [] = Unit
AllFreed s ((a, i) ∷ es) = (s a ≡ none) × AllFreed s es

delete_from-Chain :
    (s : Store) (q : Option ℕ) (es : Entries)
    → Distinct es
    → Chain s q es
    → (s' : Store) × (delete_from (length es) (first_of es) s ≡ ok s')
      × AllFreed s' es
      × SameOff es s s'
unfolding delete_from
delete_from-Chain s q [] d c = (s, refl, tt, λ c out. refl)
delete_from-Chain s q ((a, i) ∷ es) (out, d) (here, c) =
    let (s', e, freed, same) =
      delete_from-Chain (put s a none) (some a) es d (Chain-put s a none (some a) es out c) in
    (
      s',
      rw (node_at, here) e,
      (same a out ∙ put_self s a none, freed),
      λ c (ne, off). same c off ∙ put-ne s a c none ne,
    )

-- Deleting from the head, with as much fuel as the list has entries, ends; then every node of the list
-- is freed, and no other address is written.
pub delete_from-AllFreed :
    (l : RootList) (es : Entries)
    → IsLinked l es
    → (s : Store) × (delete_from (length es) l.head l.store ≡ ok s)
      × AllFreed s es
      × SameOff es l.store s
delete_from-AllFreed l es h =
    let (s, e, freed, same) = delete_from-Chain l.store none es h.distinct h.chain in
    (s, rw h.head_is e, freed, same)
