-- ===== src/GarbageCollector/Scanning.antt =====
-- That the loop of `performGarbageCollection` in src/vm/GarbageCollector.cpp ends, and that the references of all
-- copies are forwarded then.
use geevm.Prelude.{◌↔◌, ℕ, ◌+◌, ◌≤◌, ◌≡◌, ◌≢◌, refl, sym, ◌∙◌, inl, inr, ap, zero, suc, List, []}
use geevm.Prelude.{◌∷◌, ◌++◌, append-nil, append_assoc, length, length-append, ok, arith, lt→ltb}
use geevm.Prelude.{le→ltb, ◌⊎◌}
use geevm.GarbageCollector.{LoadedClass, Memory, Forwarding, Copying, scan}
use geevm.GarbageCollector.Weights.{In, total, total_le}
use geevm.GarbageCollector.Forwards.{originals}
use geevm.GarbageCollector.Invariant.{Has, Valid, FromSpace, Inv, reference_places, Laid, size_at}
use geevm.GarbageCollector.Invariant.{entry-bounds, originals-old, size_at-Valid, Laid-bounds}
use geevm.GarbageCollector.Copies.{Has-more}
use geevm.GarbageCollector.References.{Processed, process_references-Inv}

total_one : (xs : List ℕ) → total (λ _. 1) xs ≡ length xs
total_one [] = refl
total_one (x ∷ xs) = omega (arith, total_one xs)

length-originals : (m : Forwarding) → length (originals m) ≡ length m
length-originals [] = refl
length-originals ((o, n) ∷ m) = ap suc (length-originals m)

Has-or : (xs ys : Forwarding) (o n : ℕ) → Has (xs ++ ys) o n → Has xs o n ⊎ Has ys o n
Has-or [] ys o n h = inr h
Has-or ((p, q) ∷ xs) ys o n (inl e) = inl (inl e)
Has-or ((p, q) ∷ xs) ys o n (inr h) = elim (Has-or xs ys o n h) [
  | inl there ↦ inl (inr there)
  | inr there ↦ inr there
]

Has-behind : (xs ys : Forwarding) (o n : ℕ) → Has ys o n → Has (xs ++ ys) o n
Has-behind [] ys o n h = h
Has-behind ((p, q) ∷ xs) ys o n h = inr (Has-behind xs ys o n h)

module _ (classes : List LoadedClass) (memory₀ : Memory) where
  Laid-split :
      (p e : ℕ) (xs ys : Forwarding)
      → Laid classes memory₀ p (xs ++ ys) e
      → (q : ℕ) × Laid classes memory₀ p xs q × Laid classes memory₀ q ys e
  Laid-split p e [] ys h = (p, refl, h)
  Laid-split p e ((o, n) ∷ xs) ys (at, h) =
      let (q, l, r) = Laid-split (p + size_at classes memory₀ o) e xs ys h in (q, (at, l), r)

  Laid-unique :
      (p e e' : ℕ) (xs : Forwarding)
      → Laid classes memory₀ p xs e
      → Laid classes memory₀ p xs e'
      → e ≡ e'
  Laid-unique p e e' [] h h' = sym h ∙ h'
  Laid-unique p e e' ((o, n) ∷ xs) (at, h) (at', h') =
      Laid-unique (p + size_at classes memory₀ o) e e' xs h h'

  Laid-rest :
      (p q e : ℕ) (xs ys : Forwarding)
      → Laid classes memory₀ p (xs ++ ys) e
      → Laid classes memory₀ p xs q
      → Laid classes memory₀ q ys e
  Laid-rest p q e xs ys h l =
      let (q', l', r) = Laid-split p e xs ys h in rw (Laid-unique p q q' xs l l') r

  Laid-snoc_at :
      (p q : ℕ) (xs : Forwarding) (o : ℕ)
      → Laid classes memory₀ p xs q
      → Laid classes memory₀ p (xs ++ (o, q) ∷ []) (q + size_at classes memory₀ o)
  Laid-snoc_at p q [] o h = (sym h, rw h refl)
  Laid-snoc_at p q ((o', n) ∷ xs) o (at, h) =
      (at, Laid-snoc_at (p + size_at classes memory₀ o') q xs o h)

  module _ (objects : List ℕ) (base half : ℕ)
      (from : FromSpace classes memory₀ objects base half) where
    -- The places of the object have been forwarded in its copy at `n`, and no other.
    abbrev pub Complete : (ℕ → List ℕ) → ℕ → ℕ → Type 0
    Complete progress o n =
        (v : Valid classes memory₀ objects base half o) (p : ℕ)
        → In p (reference_places v.klass v.object) ↔ In p (progress n)

    -- There are no more copies than objects.
    copies-le :
        (progress : ℕ → List ℕ) (c : Copying)
        → Inv classes memory₀ objects base half progress c
        → length c.map ≤ length objects
    copies-le progress c inv =
        let t =
          total_le (λ _. 1) (originals c.map) objects inv.distinct
            (originals-old classes memory₀ objects base half from inv) in
        omega (arith, t, total_one objects, total_one (originals c.map), length-originals c.map)

    sized :
        (progress : ℕ → List ℕ) (c : Copying)
        → Inv classes memory₀ objects base half progress c
        → (o n : ℕ) → Has c.map o n
        → 1 ≤ size_at classes memory₀ o
    sized progress c inv o n has =
        size_at-Valid classes memory₀ objects base half o (from.valid o (inv.entry o n has).is_old)

    -- Between two rounds: the copies `done` lie in front of the pointer, and all their references are
    -- forwarded; no reference of the copies `left` is.
    pub record Between (progress : ℕ → List ℕ) (c : Copying) (scan_ptr : ℕ) (done left : Forwarding)
        : Type 0 where
      pub inv : Inv classes memory₀ objects base half progress c
      pub map_is : c.map ≡ done ++ left
      pub reached : Laid classes memory₀ base done scan_ptr
      pub complete : (o n : ℕ) → Has done o n → Complete progress o n
      pub pending : (o n : ℕ) → Has left o n → progress n ≡ []

    Between-rest :
        {progress : ℕ → List ℕ} {c : Copying} {scan_ptr : ℕ} {done left : Forwarding}
        → Between progress c scan_ptr done left
        → Laid classes memory₀ scan_ptr left c.bump_ptr
    Between-rest {c = c} {scan_ptr = scan_ptr} {done = done} {left = left} b =
        Laid-rest base scan_ptr c.bump_ptr done left (rw b.map_is at b.inv.laid) b.reached

    -- The round that processes the first of the copies that are left.
    module _ (progress : ℕ → List ℕ) (c c₁ : Copying) (o n : ℕ) (done left : Forwarding)
        (b : Between progress c n done ((o, n) ∷ left))
        (pr : Processed classes memory₀ objects base half from o n progress c c₁) where
      map-after : c₁.map ≡ (done ++ (o, n) ∷ []) ++ (left ++ pr.extra)
      map-after =
          pr.map_is
          ∙ (ap (λ m. m ++ pr.extra) b.map_is
              ∙ (append_assoc done ((o, n) ∷ left) pr.extra
                  ∙ sym (append_assoc done ((o, n) ∷ []) (left ++ pr.extra))))

      rest-after :
          Laid classes memory₀ (n + size_at classes memory₀ o) (left ++ pr.extra) c₁.bump_ptr
      rest-after =
          Laid-rest base (n + size_at classes memory₀ o) c₁.bump_ptr (done ++ (o, n) ∷ [])
            (left ++ pr.extra) (rw map-after at pr.inv.laid) (Laid-snoc_at base n done o b.reached)

      -- The copies that are left then lie behind `n`, and nothing of them was written.
      untouched : (o' n' : ℕ) → Has (left ++ pr.extra) o' n' → pr.progress' n' ≡ []
      untouched o' n' has = pr.elsewhere n' ne ∙ before
        where
          ne : n' ≢ n
          ne =
              let (low, high) =
                Laid-bounds classes memory₀ objects base half (n + size_at classes memory₀ o)
                  c₁.bump_ptr (left ++ pr.extra)
                  (λ o n h.
                    sized pr.progress' c₁ pr.inv o n
                      (rw map-after (Has-behind (done ++ (_, _) ∷ []) (left ++ pr.extra) o n h)))
                  rest-after o' n' has in
              let s =
                sized progress c b.inv o n
                  (rw b.map_is (Has-behind done _ o n (inl (refl, refl)))) in
              omega arith

          before : progress n' ≡ []
          before = elim (Has-or left pr.extra o' n' has) [
            | inl there ↦ b.pending o' n' (inr there)
            | inr new ↦
                let (low, high) =
                  Laid-bounds classes memory₀ objects base half c.bump_ptr c₁.bump_ptr pr.extra
                    (λ o n h.
                      sized pr.progress' c₁ pr.inv o n
                        (rw pr.map_is (Has-behind c.map pr.extra o n h)))
                    (Laid-rest (n + size_at classes memory₀ o) c.bump_ptr c₁.bump_ptr left pr.extra
                      rest-after (Between-rest b).1)
                    o' n' new in
                b.inv.fresh n' low
          ]

      -- The copies in front of the pointer are others.
      ne_done : (o' n' : ℕ) → Has done o' n' → n' ≢ n
      ne_done o' n' has =
          let (low, high) =
            Laid-bounds classes memory₀ objects base half base n done
              (λ o n h. sized progress c b.inv o n (rw b.map_is (Has-more done _ o n h))) b.reached
              o' n' has in
          omega arith

      Between-after :
          Between pr.progress' c₁
            (n + size_at classes memory₀ o)
            (done ++ (o, n) ∷ [])
            (left ++ pr.extra)
      Between-after = record {
        inv = pr.inv;
        map_is = map-after;
        reached = Laid-snoc_at base n done o b.reached;
        complete = λ o' n' has. elim (Has-or done ((o, n) ∷ []) o' n' has) [
          | inl there ↦
              λ v p. rw (pr.elsewhere n' (ne_done o' n' there)) (b.complete o' n' there v p)
          | inr (inl (eo, en)) ↦ rw (eo, en) pr.complete
          | inr (inr nothing) ↦ absurd nothing
        ];
        pending = untouched;
      }

    scan-done :
        (fuel scan_ptr : ℕ) (c : Copying)
        → c.bump_ptr ≤ scan_ptr
        → scan fuel classes scan_ptr c ≡ ok c
    unfolding scan
    scan-done zero scan_ptr c h = rw (scan, le→ltb scan_ptr c.bump_ptr h) refl
    scan-done (suc fuel) scan_ptr c h = rw (scan, le→ltb scan_ptr c.bump_ptr h) refl

    -- The scan ends with the invariant, all entries as they were and more, and all copies complete.
    pub record Scanned (c c' : Copying) : Type 0 where
      pub progress' : ℕ → List ℕ
      pub extra : Forwarding
      pub inv : Inv classes memory₀ objects base half progress' c'
      pub map_is : c'.map ≡ c.map ++ extra
      pub complete : (o n : ℕ) → Has c'.map o n → Complete progress' o n

    pub scan-Scanned :
        (fuel : ℕ) (progress : ℕ → List ℕ) (c : Copying) (scan_ptr : ℕ) (done left : Forwarding)
        → Between progress c scan_ptr done left
        → length objects ≤ length done + fuel
        → (c' : Copying) × (scan fuel classes scan_ptr c ≡ ok c') × Scanned c c'
    unfolding scan
    scan-Scanned fuel progress c scan_ptr done [] b enough = (
      c,
      scan-done fuel scan_ptr c (let e : scan_ptr ≡ c.bump_ptr = Between-rest b in omega arith),
      record {
        progress' = progress;
        extra = [];
        inv = b.inv;
        map_is = sym (append-nil c.map);
        complete = λ o n has.
            let there : Has done o n = rw (b.map_is, append-nil done) at has in
            b.complete o n there;
      },
    )
    scan-Scanned zero progress c scan_ptr done ((o, n) ∷ left) b enough =
        let full = copies-le progress c b.inv in
        let longer = length-append done ((o, n) ∷ left) in
        let same = ap (length {A = ℕ × ℕ}) b.map_is in absurd (omega arith)
    scan-Scanned (suc fuel) progress c scan_ptr done ((o, n) ∷ left) b enough =
        let q : n ≡ scan_ptr = (Between-rest b).0 in
        let b' : Between progress c n done ((o, n) ∷ left) = rw (sym q) at b in
        let has : Has c.map o n = rw b.map_is (Has-behind done _ o n (inl (refl, refl))) in
        let (size, c₁, eq, sz, pr) =
          process_references-Inv classes memory₀ objects base half from progress c o n b.inv has
            (b.pending o n (inl (refl, refl))) in
        let (_, below) = entry-bounds classes memory₀ objects base half from b.inv o n has in
        let next = Between-after progress c c₁ o n done left b' pr in
        let longer = length-append done ((o, n) ∷ []) in
        let (c', e, sc) =
          scan-Scanned fuel pr.progress' c₁ _ (done ++ (o, n) ∷ []) (left ++ pr.extra) next
            (omega arith) in
        rw (sym q) (
          c',
          rw (scan, lt→ltb n c.bump_ptr below, eq, sz) e,
          record {
            progress' = sc.progress';
            extra = pr.extra ++ sc.extra;
            inv = sc.inv;
            map_is =
                sc.map_is
                ∙ (ap (λ m. m ++ sc.extra) pr.map_is ∙ append_assoc c.map pr.extra sc.extra);
            complete = sc.complete;
          },
        )
