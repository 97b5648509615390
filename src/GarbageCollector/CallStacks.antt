-- ===== src/GarbageCollector/CallStacks.antt =====
-- What the loops over the threads and their frames in src/vm/GarbageCollector.cpp do: the references of the
-- frames are forwarded.
use geevm.Prelude.{ℕ, ◌≤◌, ◌<◌, ◌≡◌, refl, ◌∙◌, ap, some, none, List, [], ◌∷◌, get_elem?, length}
use geevm.Prelude.{ok, arith, Option, lt→ltb}
use geevm.Prelude.Words.{pattern_of}
use geevm.Frame.{CallFrame, reference, store_value, replace_stack_value, load_generic_value}
use geevm.Frame.{stack_element_at}
use geevm.Frame.Slots.{element-some}
use geevm.GcRoots.Compute.{Method, FrameRoots, compute, references_from, references_in_locals}
use geevm.GcRoots.Compute.{references_in_operand_stack}
use geevm.GarbageCollector.{LoadedClass, Memory, Copying}
use geevm.GarbageCollector.Weights.{In}
use geevm.GarbageCollector.Invariant.{Slots, FromSpace}
use geevm.GarbageCollector.Copies.{Slots-grows, Slots-refl}
use geevm.GarbageCollector.Collecting.{Activation, copy_slots, copy_frame, copy_call_stack}
use geevm.GarbageCollector.Collecting.{copy_threads}
use geevm.GarbageCollector.Roots.{behind, Refers, Unscanned, Grown, Grown-refl, Grown-trans}
use geevm.GarbageCollector.Frames.{flagged-bounds, flagged-Distinct, references_from-Values}
use geevm.GarbageCollector.Frames.{copy_slots-Grown, LocalsOf, OperandsOf, store_value-law}
use geevm.GarbageCollector.Frames.{replace_stack_value-law}
use geevm.GarbageCollector.StackForwards.{local_places, operand_places, FrameForwarded}
use geevm.GarbageCollector.StackForwards.{ActivationForwarded, StackForwarded, ThreadsForwarded}
use geevm.GarbageCollector.StackForwards.{ActivationForwarded-grows, StackForwarded-grows}

load_generic_value-some :
    (f : CallFrame) (p v : ℕ)
    → get_elem? f.local_variables p ≡ some v
    → p < length f.local_variables
    → load_generic_value p f ≡ ok v
unfolding load_generic_value
load_generic_value-some f p v is lt =
    rw (lt→ltb p (length f.local_variables) lt) (element-some f.local_variables p v is)

stack_element_at-some :
    (f : CallFrame) (p v : ℕ)
    → get_elem? f.operand_stack p ≡ some v
    → p < f.stack_pointer
    → stack_element_at p f ≡ ok v
unfolding stack_element_at
stack_element_at-some f p v is lt =
    rw (lt→ltb p f.stack_pointer lt) (element-some f.operand_stack p v is)

module _ (classes : List LoadedClass) (memory₀ : Memory) (objects : List ℕ) (base half : ℕ) where
  -- The flags of the frame are known, and the flagged slots are null or refer to objects.
  pub record FrameReady (method : Method) (f : CallFrame) : Type 0 where
    pub roots : FrameRoots
    pub computed : compute method (pattern_of 32 f.position) ≡ ok roots
    pub locals_flagged : length f.local_variables ≤ length roots.local_variable_references
    pub operands_flagged : f.stack_pointer ≤ length roots.operand_stack_references
    pub operands_bounded : f.stack_pointer ≤ length f.operand_stack
    pub locals_refer :
        (p v : ℕ)
        → In p (local_places roots f)
        → get_elem? f.local_variables p ≡ some v
        → Refers classes memory₀ objects base half v
    pub operands_refer :
        (p v : ℕ)
        → In p (operand_places roots f)
        → get_elem? f.operand_stack p ≡ some v
        → Refers classes memory₀ objects base half v

  -- What is asked of a frame: nothing, where the method is native.
  abbrev pub Ready : Activation → Type 0
  Ready a = elim a.method [ none ↦ Unit | some method ↦ FrameReady method a.frame ]

  abbrev pub AllReady : List Activation → Type 0
  AllReady [] = Unit
  AllReady (a ∷ rest) = Ready a × AllReady rest

  abbrev pub ThreadsReady : List (List Activation) → Type 0
  ThreadsReady [] = Unit
  ThreadsReady (t ∷ ts) = AllReady t × ThreadsReady ts

  module _ (from : FromSpace classes memory₀ objects base half) where
    copy_locals-Grown :
        (method : Method) (f : CallFrame) (h : FrameReady method f) (c : Copying)
        → Unscanned classes memory₀ objects base half c
        → (rs : List (ℕ × ℕ)) × (f' : CallFrame) × (c' : Copying) × (references_in_locals h.roots f
            ≡ ok rs)
          × (copy_slots classes (store_value reference) rs f c ≡ ok (f', c'))
          × Grown classes memory₀ objects base half c c'
          × LocalsOf f f'
          × Slots c'.map (behind (local_places h.roots f) []) f.local_variables f'.local_variables
    unfolding references_in_locals
    copy_locals-Grown method f h c inv =
        let flags = h.roots.local_variable_references in
        let n = length f.local_variables in
        let (rs, e, vs) =
          references_from-Values (λ i. load_generic_value i f) f.local_variables flags n 0
            (λ p v lt is. load_generic_value-some f p v is (omega arith))
            (omega (arith, h.locals_flagged)) (omega arith) in
        let (f', c', e', g, fit, slots) =
          copy_slots-Grown classes memory₀ objects base half from (store_value reference)
            (λ g. g.local_variables) (LocalsOf f) n (λ i v g. store_value-law f i v g)
            (local_places h.roots f) [] f.local_variables rs f c inv
            (record { others = refl; count = refl }) (Slots-refl c.map f.local_variables) vs
            (λ p here. let b = flagged-bounds flags n 0 p here in omega arith) h.locals_refer
            (flagged-Distinct flags n 0) (λ p here. tt) in
        (rs, f', c', e, e', g, fit, slots)

    -- The same for the operand stack, of a frame `f` whose local variables have been forwarded in `g`.
    copy_operands-Grown :
        (method : Method) (f g : CallFrame) (h : FrameReady method f) (c : Copying)
        → Unscanned classes memory₀ objects base half c
        → g.operand_stack ≡ f.operand_stack
        → g.stack_pointer ≡ f.stack_pointer
        → (rs : List (ℕ × ℕ)) × (g' : CallFrame) × (c' : Copying) × (references_in_operand_stack
              h.roots g
            ≡ ok rs)
          × (copy_slots classes replace_stack_value rs g c ≡ ok (g', c'))
          × Grown classes memory₀ objects base half c c'
          × OperandsOf g g'
          × Slots c'.map (behind (operand_places h.roots f) []) f.operand_stack g'.operand_stack
    unfolding references_in_operand_stack
    copy_operands-Grown method f g h c inv es ep =
        let flags = h.roots.operand_stack_references in
        let n = f.stack_pointer in
        let (rs, e, vs) =
          references_from-Values (λ i. stack_element_at i g) f.operand_stack flags n 0
            (λ p v lt is. stack_element_at-some g p v (rw es is) (omega arith))
            (omega (arith, h.operands_flagged)) (omega (arith, h.operands_bounded)) in
        let (g', c', e', grown, fit, slots) =
          copy_slots-Grown classes memory₀ objects base half from replace_stack_value
            (λ g. g.operand_stack) (OperandsOf g) n
            (λ i v g' lt. replace_stack_value-law g i v g' (omega arith)) (operand_places h.roots f)
            [] f.operand_stack rs g c inv (record { others = refl; count = refl })
            (rw es (Slots-refl c.map f.operand_stack)) vs
            (λ p here. let b = flagged-bounds flags n 0 p here in omega arith) h.operands_refer
            (flagged-Distinct flags n 0) (λ p here. tt) in
        let found = ap (λ k. references_from (λ i. stack_element_at i g) flags k 0) ep ∙ e in
        (rs, g', c', found, e', grown, fit, slots)

    -- A frame of a method with byte code.
    copy_managed-Grown :
        (method : Method) (f : CallFrame) (h : FrameReady method f) (c : Copying)
        → Unscanned classes memory₀ objects base half c
        → (f' : CallFrame) × (c' : Copying) × (copy_frame classes
              (record { frame = f; method = some method })
              c
            ≡ ok (record { frame = f'; method = some method }, c'))
          × Grown classes memory₀ objects base half c c'
          × FrameForwarded c'.map h.roots f f'
    unfolding copy_frame
    copy_managed-Grown method f h c inv =
        let (rs, g, c₁, e₁, e₁', g₁, fit₁, slots₁) = copy_locals-Grown method f h c inv in
        let (rs', g', c₂, e₂, e₂', g₂, fit₂, slots₂) =
          copy_operands-Grown method f g h c₁ g₁.inv (ap (λ x. x.operand_stack) fit₁.others)
            (ap (λ x. x.stack_pointer) fit₁.others) in
        let set_both : CallFrame → CallFrame =
          λ x. record x { local_variables = f.local_variables; operand_stack = f.operand_stack } in
        let set_operands : CallFrame → CallFrame =
          λ x. record x { operand_stack = f.operand_stack } in
        let kept : g'.local_variables ≡ g.local_variables =
          ap (λ x. x.local_variables) fit₂.others in
        (
          g',
          c₂,
          rw (h.computed, e₁, e₁', e₂, e₂') refl,
          Grown-trans classes memory₀ objects base half g₁ g₂,
          record {
            others = ap set_both fit₂.others ∙ ap set_operands fit₁.others;
            locals = rw (kept, g₂.map_is) (Slots-grows c₁.map g₂.extra slots₁);
            operands = slots₂;
          },
        )

    copy_activation-Grown :
        (f : CallFrame) (m : Option Method) (c : Copying)
        → Unscanned classes memory₀ objects base half c
        → Ready (record { frame = f; method = m })
        → (a' : Activation) × (c' : Copying) × (copy_frame classes
              (record { frame = f; method = m })
              c
            ≡ ok (a', c'))
          × Grown classes memory₀ objects base half c c'
          × ActivationForwarded c'.map (record { frame = f; method = m }) a'
    unfolding copy_frame
    copy_activation-Grown f none c inv ready =
        (_, c, refl, Grown-refl classes memory₀ objects base half c inv, refl)
    copy_activation-Grown f (some method) c inv h =
        let (f', c', e, g, moved) = copy_managed-Grown method f h c inv in
        (_, c', e, g, (refl, h.roots, h.computed, moved))

    copy_call_stack-Grown :
        (stack : List Activation) (c : Copying)
        → Unscanned classes memory₀ objects base half c
        → AllReady stack
        → (stack' : List Activation) × (c' : Copying) × (copy_call_stack classes stack c
            ≡ ok (stack', c'))
          × Grown classes memory₀ objects base half c c'
          × StackForwarded c'.map stack stack'
    unfolding copy_call_stack
    copy_call_stack-Grown [] c inv all =
        ([], c, refl, Grown-refl classes memory₀ objects base half c inv, tt)
    copy_call_stack-Grown (a ∷ rest) c inv (here, all) =
        let (a', c₁, e, g, moved) = copy_activation-Grown a.frame a.method c inv here in
        let (rest', c₂, e', g', h) = copy_call_stack-Grown rest c₁ g.inv all in
        (
          a' ∷ rest',
          c₂,
          rw (e, e') refl,
          Grown-trans classes memory₀ objects base half g g',
          (rw g'.map_is (ActivationForwarded-grows c₁.map g'.extra a a' moved), h),
        )

    pub copy_threads-Grown :
        (threads : List (List Activation)) (c : Copying)
        → Unscanned classes memory₀ objects base half c
        → ThreadsReady threads
        → (threads' : List (List Activation)) × (c' : Copying) × (copy_threads classes threads c
            ≡ ok (threads', c'))
          × Grown classes memory₀ objects base half c c'
          × ThreadsForwarded c'.map threads threads'
    unfolding copy_threads
    copy_threads-Grown [] c inv all =
        ([], c, refl, Grown-refl classes memory₀ objects base half c inv, tt)
    copy_threads-Grown (t ∷ ts) c inv (here, all) =
        let (t', c₁, e, g, moved) = copy_call_stack-Grown t c inv here in
        let (ts', c₂, e', g', h) = copy_threads-Grown ts c₁ g.inv all in
        (
          t' ∷ ts',
          c₂,
          rw (e, e') refl,
          Grown-trans classes memory₀ objects base half g g',
          (rw g'.map_is (StackForwarded-grows c₁.map g'.extra t t' moved), h),
        )
