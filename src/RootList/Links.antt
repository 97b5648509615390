-- ===== src/RootList/Links.antt =====
-- The links of the list of src/vm/RootList.cpp, and what a write to one node leaves of them.
use geevm.Prelude.{ℕ, ◌≡◌, ◌≢◌, refl, sym, ◌∙◌, Option, none, some, List, [], ◌∷◌, ◌++◌, ok, arith}
use geevm.RootList.{Node, Store, put, RootList, node_at, set_prev, set_next}

-- Entries of a list: an address, and the reference that its node holds.
abbrev pub Entries : Type 0
Entries = List (ℕ × ℕ)

abbrev pub first_of : Entries → Option ℕ
first_of [] = none
first_of ((a, i) ∷ es) = some a

-- The last address of the entries, or what stands before them.
abbrev pub last_of : Option ℕ → Entries → Option ℕ
last_of q [] = q
last_of q ((a, i) ∷ es) = last_of (some a) es

abbrev pub NotIn : ℕ → Entries → Type 0
NotIn a [] = Unit
NotIn a ((b, i) ∷ es) = (a ≢ b) × NotIn a es

abbrev pub Distinct : Entries → Type 0
Distinct [] = Unit
Distinct ((a, i) ∷ es) = NotIn a es × Distinct es

-- The nodes of the entries, linked both ways, with `q` before the first.
abbrev pub Chain : Store → Option ℕ → Entries → Type 0
Chain s q [] = Unit
Chain s q ((a, i) ∷ es) =
    (s a ≡ some (record { instance_at = i; next = first_of es; prev = q })) × Chain s (some a) es

-- The list is linked through the entries, in their order.
pub record IsLinked (l : RootList) (es : Entries) : Type 0 where
  pub head_is : l.head ≡ first_of es
  pub chain : Chain l.store none es
  pub distinct : Distinct es

pub put_self : (s : Store) (a : ℕ) (n : Option Node) → put s a n a ≡ n
put_self s a n = ground arith

pub put-ne : (s : Store) (a b : ℕ) (n : Option Node) → b ≢ a → put s a n b ≡ s b
put-ne s a b n ne = ground arith

-- Writing elsewhere leaves the chain.
pub Chain-put :
    (s : Store) (a : ℕ) (n : Option Node) (q : Option ℕ) (es : Entries)
    → NotIn a es
    → Chain s q es
    → Chain (put s a n) q es
Chain-put s a n q [] out c = tt
Chain-put s a n q ((b, i) ∷ es) (ne, out) (here, c) =
    (put-ne s a b n (λ e. ne (sym e)) ∙ here, Chain-put s a n (some b) es out c)

-- The nodes of the entries in front of others: `r` is behind the last.
abbrev pub first_or : Entries → Option ℕ → Option ℕ
first_or [] r = r
first_or ((a, i) ∷ es) r = some a

abbrev pub Prefix : Store → Option ℕ → Entries → Option ℕ → Type 0
Prefix s q [] r = Unit
Prefix s q ((a, i) ∷ es) r =
    (s a ≡ some (record { instance_at = i; next = first_or es r; prev = q }))
    × Prefix s (some a) es r

pub first_of-append : (xs ys : Entries) → first_of (xs ++ ys) ≡ first_or xs (first_of ys)
first_of-append [] ys = refl
first_of-append ((a, i) ∷ xs) ys = refl

pub Chain-split :
    (s : Store) (q : Option ℕ) (xs ys : Entries)
    → Chain s q (xs ++ ys)
    → Prefix s q xs (first_of ys) × Chain s (last_of q xs) ys
Chain-split s q [] ys c = (tt, c)
Chain-split s q ((a, i) ∷ xs) ys (here, c) =
    let (p, c') = Chain-split s (some a) xs ys c in ((rw (first_of-append xs ys) at here, p), c')

pub Chain-join :
    (s : Store) (q : Option ℕ) (xs ys : Entries)
    → Prefix s q xs (first_of ys)
    → Chain s (last_of q xs) ys
    → Chain s q (xs ++ ys)
Chain-join s q [] ys p c = c
Chain-join s q ((a, i) ∷ xs) ys (here, p) c =
    (rw (first_of-append xs ys) here, Chain-join s (some a) xs ys p c)

-- No address of the one is in the other.
abbrev pub Apart : Entries → Entries → Type 0
Apart [] ys = Unit
Apart ((a, i) ∷ xs) ys = NotIn a ys × Apart xs ys

pub NotIn-split : (a : ℕ) (xs ys : Entries) → NotIn a (xs ++ ys) → NotIn a xs × NotIn a ys
NotIn-split a [] ys h = (tt, h)
NotIn-split a ((b, i) ∷ xs) ys (ne, h) = let (l, r) = NotIn-split a xs ys h in ((ne, l), r)

pub NotIn-join : (a : ℕ) (xs ys : Entries) → NotIn a xs → NotIn a ys → NotIn a (xs ++ ys)
NotIn-join a [] ys l r = r
NotIn-join a ((b, i) ∷ xs) ys (ne, l) r = (ne, NotIn-join a xs ys l r)

pub Distinct-split :
    (xs ys : Entries) → Distinct (xs ++ ys) → Distinct xs × Apart xs ys × Distinct ys
Distinct-split [] ys d = (tt, tt, d)
Distinct-split ((a, i) ∷ xs) ys (out, d) =
    let (l, r) = NotIn-split a xs ys out in
    let (dx, apart, dy) = Distinct-split xs ys d in ((l, dx), (r, apart), dy)

pub Distinct-join :
    (xs ys : Entries) → Distinct xs → Apart xs ys → Distinct ys → Distinct (xs ++ ys)
Distinct-join [] ys dx apart dy = dy
Distinct-join ((a, i) ∷ xs) ys (out, dx) (r, apart) dy =
    (NotIn-join a xs ys out r, Distinct-join xs ys dx apart dy)

pub Apart-cons : (xs ys : Entries) (a i : ℕ) → Apart xs ((a, i) ∷ ys) → NotIn a xs × Apart xs ys
Apart-cons [] ys a i h = (tt, tt)
Apart-cons ((b, j) ∷ xs) ys a i ((ne, out), h) =
    let (l, r) = Apart-cons xs ys a i h in (((λ e. ne (sym e)), l), (out, r))

pub Apart-sym : (xs ys : Entries) → Apart xs ys → Apart ys xs
Apart-sym xs [] h = tt
Apart-sym xs ((a, i) ∷ ys) h = let (l, r) = Apart-cons xs ys a i h in (l, Apart-sym xs ys r)

-- Two stores with the same nodes at every address that is not in the entries.
abbrev pub SameOff : Entries → Store → Store → Type 0
SameOff es s s' = (c : ℕ) → NotIn c es → s' c ≡ s c

pub Chain-SameOff :
    (s s' : Store) (es : Entries) (q : Option ℕ) (xs : Entries)
    → SameOff es s s'
    → Apart xs es
    → Chain s q xs
    → Chain s' q xs
Chain-SameOff s s' es q [] same apart c = tt
Chain-SameOff s s' es q ((a, i) ∷ xs) same (out, apart) (here, c) =
    (same a out ∙ here, Chain-SameOff s s' es (some a) xs same apart c)

pub Prefix-SameOff :
    (s s' : Store) (es : Entries) (q : Option ℕ) (xs : Entries) (r : Option ℕ)
    → SameOff es s s'
    → Apart xs es
    → Prefix s q xs r
    → Prefix s' q xs r
Prefix-SameOff s s' es q [] r same apart c = tt
Prefix-SameOff s s' es q ((a, i) ∷ xs) r same (out, apart) (here, c) =
    (same a out ∙ here, Prefix-SameOff s s' es (some a) xs r same apart c)

-- The first node of the rest gets another predecessor.
pub set_prev-Chain :
    (s : Store) (q v : Option ℕ) (es : Entries)
    → Distinct es
    → Chain s q es
    → (s' : Store) × (set_prev (first_of es) v s ≡ ok s') × Chain s' v es × SameOff es s s'
unfolding set_prev
set_prev-Chain s q v [] d c = (s, refl, tt, λ c out. refl)
set_prev-Chain s q v ((b, j) ∷ es) (out, d) (here, c) =
    let linked : Node = record { instance_at = j; next = first_of es; prev = v } in
    (
      put s b (some linked),
      rw (set_prev, node_at, here) refl,
      (put_self s b (some linked), Chain-put s b (some linked) (some b) es out c),
      λ c (ne, _). put-ne s b c (some linked) ne,
    )

-- The last node in front gets another successor.
pub set_next-Prefix :
    (s : Store) (q r v : Option ℕ) (a i : ℕ) (es : Entries)
    → Distinct ((a, i) ∷ es)
    → Prefix s q ((a, i) ∷ es) r
    → (s' : Store) × (set_next (last_of (some a) es) v s ≡ ok s')
      × Prefix s' q ((a, i) ∷ es) v
      × SameOff ((a, i) ∷ es) s s'
unfolding set_next
set_next-Prefix s q r v a i [] d (here, p) =
    let linked : Node = record { instance_at = i; next = v; prev = q } in
    (
      put s a (some linked),
      rw (set_next, node_at, here) refl,
      (put_self s a (some linked), tt),
      λ c (ne, _). put-ne s a c (some linked) ne,
    )
set_next-Prefix s q r v a i ((b, j) ∷ es) (out, d) (here, p) =
    let (s', e, p', same) = set_next-Prefix s (some a) r v b j es d p in
    (s', e, (same a out ∙ here, p'), λ c (ne, off). same c off)
