-- ===== src/RootList.antt =====
-- src/vm/RootList.cpp: the doubly linked list of the references that are pinned as roots of the garbage
-- collector, on a store of nodes. Addresses are numbers, and the null pointer is `none`.
pub mod Links
pub mod Editing
pub mod Deletion
mod Tests
use geevm.Prelude.{ℕ, zero, suc, ◌==◌, if◌then◌else◌, Option, none, some, Result, ok, fault, ◌>>=◌}
use geevm.Prelude.{undefined, Bool, false}

-- `RootList::Node`
pub record Node : Type 0 where
  pub instance_at : ℕ
  pub next : Option ℕ
  pub prev : Option ℕ

abbrev pub Store : Type 0
Store = ℕ → Option Node

-- The store with another content at an address; `none` is what is not allocated.
abbrev pub put : Store → ℕ → Option Node → Store
put s a n = λ b. if b == a then n else s b

pub record RootList : Type 0 where
  pub store : Store
  pub head : Option ℕ

-- Following a pointer to what is not a node is undefined.
abbrev pub node_at : Store → ℕ → Result Node
node_at s a = elim (s a) [ none ↦ fault undefined | some n ↦ ok n ]

-- `if (p != nullptr) { p->prev = value; }`, and the same for `next`
pub set_prev : Option ℕ → Option ℕ → Store → Result Store
set_prev none value s = ok s
set_prev (some p) value s = do n ← node_at s p; ok (put s p (some (record n { prev = value })))

pub set_next : Option ℕ → Option ℕ → Store → Result Store
set_next none value s = ok s
set_next (some p) value s = do n ← node_at s p; ok (put s p (some (record n { next = value })))

-- `RootList::insert`, with the address that `new` returns.
pub insert : ℕ → ℕ → RootList → Result RootList
unfolding set_prev
insert address reference l = do
  s ←
      set_prev l.head (some address) (
        put l.store address (some (record { instance_at = reference; next = l.head; prev = none })))
  ok (record { store = s; head = some address })

abbrev is_at : Option ℕ → ℕ → Bool
is_at none a = false
is_at (some h) a = h == a

-- `RootList::remove`
pub remove : Option ℕ → RootList → Result RootList
unfolding set_prev set_next
remove none l = ok l
remove (some a) l = do
  n ← node_at l.store a
  s ← set_prev n.next n.prev l.store
  n ← node_at s a
  s ← set_next n.prev n.next s
  n ← node_at s a
  ok (record { store = put s a none; head = if is_at l.head a then n.next else l.head })

-- The loop of `RootList::~RootList`: on fuel, one for each node.
pub delete_from : ℕ → Option ℕ → Store → Result Store
delete_from fuel none s = ok s
delete_from zero (some a) s = fault undefined
delete_from (suc fuel) (some a) s = do n ← node_at s a; delete_from fuel n.next (put s a none)
