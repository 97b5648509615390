-- ===== src/RootList/Editing.antt =====
-- That `insert` and `remove` of src/vm/RootList.cpp keep the links of the list.
use geevm.Prelude.{ℕ, ◌≡◌, refl, sym, ◌∙◌, Option, none, some, [], ◌∷◌, ◌++◌, ok, if◌then◌else◌}
use geevm.Prelude.{arith}
use geevm.RootList.{Node, Store, put, RootList, node_at, set_next, insert, remove, is_at}
use geevm.RootList.Links.{Entries, first_of, last_of, NotIn, Distinct, put_self, put-ne, Chain-put}
use geevm.RootList.Links.{Prefix, Chain-split, Chain-join, Distinct-split, Distinct-join}
use geevm.RootList.Links.{Apart-cons, Apart-sym, SameOff, Chain-SameOff, Prefix-SameOff}
use geevm.RootList.Links.{set_prev-Chain, set_next-Prefix, IsLinked}

-- `insert` at an address that is not in the list puts the reference in front; the other entries keep
-- their order.
pub insert-IsLinked :
    (a i : ℕ) (l : RootList) (es : Entries)
    → NotIn a es
    → IsLinked l es
    → (l' : RootList) × (insert a i l ≡ ok l') × IsLinked l' ((a, i) ∷ es)
unfolding insert
insert-IsLinked a i l es out h =
    let new_node : Node = record { instance_at = i; next = first_of es; prev = none } in
    let s = put l.store a (some new_node) in
    let (s', e, c, same) =
      set_prev-Chain s none (some a) es h.distinct
        (Chain-put l.store a (some new_node) none es out h.chain) in
    (
      record { store = s'; head = some a },
      rw (h.head_is, e) refl,
      record {
        head_is = refl;
        chain = (same a out ∙ put_self l.store a (some new_node), c);
        distinct = (out, h.distinct);
      },
    )

-- `set_next` on what stands in front of the removed node, which may be nothing.
set_next-front :
    (s : Store) (r v : Option ℕ) (es : Entries)
    → Distinct es
    → Prefix s none es r
    → (s' : Store) × (set_next (last_of none es) v s ≡ ok s')
      × Prefix s' none es v
      × SameOff es s s'
unfolding set_next
set_next-front s r v [] d p = (s, refl, tt, λ c out. refl)
set_next-front s r v ((a, i) ∷ es) d p = set_next-Prefix s none r v a i es d p

-- The head after the removal.
head-after :
    (xs ys : Entries) (a i : ℕ)
    → NotIn a xs
    → (if is_at (first_of (xs ++ (a, i) ∷ ys)) a then first_of ys else first_of (xs ++ (a, i) ∷ ys))
      ≡ first_of (xs ++ ys)
head-after [] ys a i out = ground arith
head-after ((b, j) ∷ xs) ys a i (ne, out) = ground arith

Prefix-put :
    (s : Store) (a : ℕ) (n : Option Node) (q : Option ℕ) (xs : Entries) (r : Option ℕ)
    → NotIn a xs
    → Prefix s q xs r
    → Prefix (put s a n) q xs r
Prefix-put s a n q [] r out c = tt
Prefix-put s a n q ((b, i) ∷ xs) r (ne, out) (here, c) =
    (put-ne s a b n (λ e. ne (sym e)) ∙ here, Prefix-put s a n (some b) xs r out c)

-- `remove` of a node of the list takes its entry out; the others keep their order and are linked
-- both ways again.
pub remove-IsLinked :
    (xs ys : Entries) (a i : ℕ) (l : RootList)
    → IsLinked l (xs ++ (a, i) ∷ ys)
    → (l' : RootList) × (remove (some a) l ≡ ok l') × IsLinked l' (xs ++ ys) × (l'.store a ≡ none)
unfolding remove
remove-IsLinked xs ys a i l h =
    let (dx, apart, (a_out, dy)) = Distinct-split xs ((a, i) ∷ ys) h.distinct in
    let (a_before, apart') = Apart-cons xs ys a i apart in
    let (p, (here, c)) = Chain-split l.store none xs ((a, i) ∷ ys) h.chain in
    let (s₁, e₁, c₁, same₁) = set_prev-Chain l.store (some a) (last_of none xs) ys dy c in
    let p₁ = Prefix-SameOff l.store s₁ ys none xs (some a) same₁ apart' p in
    let here₁ = same₁ a a_out ∙ here in
    let (s₂, e₂, p₂, same₂) = set_next-front s₁ (some a) (first_of ys) xs dx p₁ in
    let c₂ = Chain-SameOff s₁ s₂ xs (last_of none xs) ys same₂ (Apart-sym xs ys apart') c₁ in
    let here₂ = same₂ a a_before ∙ here₁ in
    (
      record { store = put s₂ a none; head = first_of (xs ++ ys) },
      rw (node_at, here, e₁, here₁, e₂, here₂, h.head_is, head-after xs ys a i a_before) refl,
      record {
        head_is = refl;
        chain =
            Chain-join (put s₂ a none) none xs ys (Prefix-put s₂ a none none xs _ a_before p₂)
              (Chain-put s₂ a none (last_of none xs) ys a_out c₂);
        distinct = Distinct-join xs ys dx apart' dy;
      },
      put_self s₂ a none,
    )
