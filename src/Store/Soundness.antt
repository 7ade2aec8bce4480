-- ===== src/Store/Soundness.antt =====
-- What a successful `verify_graph` establishes (taskguard/v3/receipt_store.py).
use bricek4_ligong_skills.Base.{
  ℕ, zero, suc, ◌+◌, ◌≤◌, max, String, ◌≡◌, refl, ◌⊎◌, inl, inr, Bool, true, false, ◌||◌, List, [],
  ◌∷◌, arith, ◌==◌, eq_iff, eq_refl, Outcome, ok, err, raise_if-passed, ok-injective, or-true,
  >>=-eq-ok, contains, leb, length, all, all-contains, all_of_contains, and-intro, Bool-cases,
}
use bricek4_ligong_skills.Receipts.{ReceiptRef, Receipt, digests_of}
use bricek4_ligong_skills.Store.{Codec, Disk, IntegrityError, GraphError, load}
use bricek4_ligong_skills.Store.Graph.{wrap, Visited, visit_all, visit, verify_from, verify_graph}

abbrev pub Grows : Visited → Visited → Type 0
Grows v w = (a : String) → contains v a ≡ true → contains w a ≡ true

abbrev pub Avoids : List String → Visited → Type 0
Avoids path v = (a : String) → contains path a ≡ true → contains v a ≡ false

all-Grows :
    (v w : Visited) (xs : List String)
    → Grows v w
    → all (contains v) xs ≡ true
    → all (contains w) xs ≡ true
all-Grows v w xs g h =
    all_of_contains (contains w) xs (λ a m. g a (all-contains (contains v) xs a h m))

Grows-cons : (d : String) (v : Visited) → Grows v (d ∷ v)
unfolding contains
Grows-cons d v a h = rw h (or_right (d == a))
  where
    or_right : (b : Bool) → (b || true) ≡ true
    or_right true = refl
    or_right false = refl

wrapped : {A : Type 0} (m : Outcome IntegrityError A) {a : A} → wrap m ≡ ok a → m ≡ ok a
wrapped (ok a) h = ground arith
wrapped (err e) h = cc

contains_head : (d : String) (v : Visited) → contains (d ∷ v) d ≡ true
unfolding contains
contains_head d v = rw eq_refl

-- What the search adds in front was not on the path.
Avoids-added :
    (path : List String) (d : String) (v : Visited)
    → contains path d ≡ false
    → Avoids (d ∷ path) v
    → Avoids path (d ∷ v)
unfolding contains
Avoids-added path d v off a x m = ground (arith, a x, eq_iff d x, or-true (d == x))

module _ (c : Codec) (disk : Disk) where
  -- A digest under which a receipt is stored that loads, has this digest and its parents among `earlier`.
  pub record IsVerified (d : String) (earlier : Visited) : Type 0 where
    pub ref : ReceiptRef
    pub receipt : Receipt
    pub at : ref.digest ≡ d
    pub loaded : load c disk ref ≡ ok receipt
    pub parents_earlier : all (contains earlier) (digests_of receipt.parents) ≡ true
    pub fresh : contains earlier d ≡ false

  -- Every digest of the list is verified, and its parents stand behind it: no cycle passes through them.
  abbrev pub IsSound : Visited → Type 0
  IsSound [] = Unit
  IsSound (d ∷ v) = IsVerified d v × IsSound v

  pub record IsGood (path : List String) (v w : Visited) : Type 0 where
    pub sound : IsSound w
    pub avoids : Avoids path w
    pub grows : Grows v w

  abbrev pub Keeps : List String → (ReceiptRef → Visited → Outcome GraphError Visited) → Type 0
  Keeps path step =
      (ref : ReceiptRef) (v w : Visited)
      → step ref v ≡ ok w
      → IsSound v
      → Avoids path v
      → IsGood path v w × (contains w ref.digest ≡ true)

  pub visit_all-IsGood :
      (path : List String) (step : ReceiptRef → Visited → Outcome GraphError Visited)
      → Keeps path step
      → (refs : List ReceiptRef) (v w : Visited) → visit_all step refs v ≡ ok w
      → IsSound v
      → Avoids path v
      → IsGood path v w × (all (contains w) (digests_of refs) ≡ true)
  unfolding visit_all
  visit_all-IsGood path step keep [] v w h s a =
      let same : v ≡ w = cc in
      (rw (← same) (record { sound = s; avoids = a; grows = λ x m. m }), refl)
  visit_all-IsGood path step keep (ref ∷ refs) v w h s a =
      let (u, first, rest) = >>=-eq-ok (step ref v) _ h in
      let (good, here) = keep ref v u first s a in
      let (good', later) = visit_all-IsGood path step keep refs u w rest good.sound good.avoids in
      (
        record {
          sound = good'.sound;
          avoids = good'.avoids;
          grows = λ x m. good'.grows x (good.grows x m);
        },
        and-intro (good'.grows ref.digest here) later,
      )

  module _ (max_count : ℕ) where
    -- A visit that went on: the digest was new, the receipt loaded and its parents were visited.
    record IsNew (room : ℕ) (path : List String) (ref : ReceiptRef) (v w : Visited) : Type 0 where
      off_path : contains path ref.digest ≡ false
      unvisited : contains v ref.digest ≡ false
      below_count : leb max_count (length v) ≡ false
      receipt : Receipt
      after : Visited
      loaded : load c disk ref ≡ ok receipt
      parents :
          visit_all (visit c disk max_count room (ref.digest ∷ path)) receipt.parents v ≡ ok after
      added : (ref.digest ∷ after) ≡ w

    visit_cases :
        (room : ℕ) (path : List String) (ref : ReceiptRef) (v w : Visited)
        → visit c disk max_count (suc room) path ref v ≡ ok w
        → ((contains v ref.digest ≡ true) × (v ≡ w)) ⊎ IsNew room path ref v w
    unfolding visit
    visit_cases room path ref v w h = elim (Bool-cases (contains path ref.digest)) [
      | inl on ↦ cc (rw on at h)
      | inr off ↦ elim (Bool-cases (contains v ref.digest)) [
        | inl old ↦ inl (old, ok-injective (rw (off, old) at h))
        | inr new ↦
            let h₀ = rw (off, new) at h in
            let (below, h₁) = raise_if-passed _ _ _ h₀ in
            let (receipt, found, h₂) = >>=-eq-ok (wrap (load c disk ref)) _ h₁ in
            let (after, parents, h₃) =
              >>=-eq-ok
                (visit_all (visit c disk max_count room (ref.digest ∷ path)) receipt.parents v) _
                h₂ in
            inr (record {
              off_path = off;
              unvisited = new;
              below_count = below;
              receipt = receipt;
              after = after;
              loaded = wrapped (load c disk ref) found;
              parents = parents;
              added = ok-injective h₃;
            })
      ]
    ]

    pub Avoids-cons :
        (path : List String) (d : String) (v : Visited)
        → Avoids path v
        → contains v d ≡ false
        → Avoids (d ∷ path) v
    unfolding contains
    Avoids-cons path d v a new x m = ground (arith, a x, eq_iff d x)

    visited_new :
        (path : List String) (ref : ReceiptRef) (v w : Visited) (room : ℕ)
        (new : IsNew room path ref v w)
        → IsSound v
        → Avoids path v
        → IsGood (ref.digest ∷ path) v new.after
          × (all (contains new.after) (digests_of new.receipt.parents) ≡ true)
        → IsGood path v w × (contains w ref.digest ≡ true)
    visited_new path ref v w room new s a (good, parents) = rw (← new.added) (
      record {
        sound = (
          record {
            ref = ref;
            receipt = new.receipt;
            at = refl;
            loaded = new.loaded;
            parents_earlier = parents;
            fresh = good.avoids ref.digest (contains_head ref.digest path);
          },
          good.sound,
        );
        avoids = Avoids-added path ref.digest new.after new.off_path good.avoids;
        grows = λ x m. Grows-cons ref.digest new.after x (good.grows x m);
      },
      contains_head ref.digest new.after,
    )

    pub visit-IsGood :
        (room : ℕ) (path : List String) → Keeps path (visit c disk max_count room path)
    unfolding visit
    visit-IsGood zero path ref v w h s a = cc
    visit-IsGood (suc room) path ref v w h s a = elim (visit_cases room path ref v w h) [
      | inl (old, same) ↦
          (rw (← same) (record { sound = s; avoids = a; grows = λ x m. m }), rw (← same) old)
      | inr new ↦ visited_new path ref v w room new s a (
          visit_all-IsGood (ref.digest ∷ path) (visit c disk max_count room (ref.digest ∷ path))
            (visit-IsGood room (ref.digest ∷ path)) new.receipt.parents v new.after new.parents s
            (Avoids-cons path ref.digest v a new.unvisited))
    ]

    -- The length of what a visit returns, where the room counts the levels that may still be entered.
    abbrev Fits : ℕ → (ReceiptRef → Visited → Outcome GraphError Visited) → Type 0
    Fits room step =
        (ref : ReceiptRef) (v w : Visited)
        → step ref v ≡ ok w
        → length w + 1 ≤ max (length v + 1) (max_count + room)

    visit_all-Fits :
        (room : ℕ) (step : ReceiptRef → Visited → Outcome GraphError Visited)
        → Fits room step
        → (refs : List ReceiptRef) (v w : Visited) → visit_all step refs v ≡ ok w
        → length w + 1 ≤ max (length v + 1) (max_count + room)
    unfolding visit_all
    visit_all-Fits room step fits [] v w h = let same : v ≡ w = cc in rw (← same) (omega arith)
    visit_all-Fits room step fits (ref ∷ refs) v w h =
        let (u, first, rest) = >>=-eq-ok (step ref v) _ h in
        omega (arith, fits ref v u first, visit_all-Fits room step fits refs u w rest)

    visit-Fits : (room : ℕ) (path : List String) → Fits room (visit c disk max_count room path)
    unfolding visit
    visit-Fits zero path ref v w h = cc
    visit-Fits (suc room) path ref v w h = elim (visit_cases room path ref v w h) [
      | inl (old, same) ↦ rw (← same) (omega arith)
      | inr new ↦
          let below : length v + 1 ≤ max_count = ground (arith, new.below_count) in
          let children =
            visit_all-Fits room (visit c disk max_count room (ref.digest ∷ path))
              (visit-Fits room (ref.digest ∷ path)) new.receipt.parents v new.after new.parents in
          rw (← new.added) (omega arith)
    ]

  module _ (max_count max_depth : ℕ) (roots : List ReceiptRef) where
    -- If the check of the graph succeeds, then there is a list of distinct digests, as long as the number
    -- returned, which holds every root and in which every digest belongs to a receipt that loads (its
    -- bytes are canonical and hash to the digest) and whose parents all stand further back in the list:
    -- all ancestors of the roots are stored and intact, and no cycle passes through them.
    pub verify_graph-IsSound :
        {n : ℕ}
        → verify_graph c disk max_count max_depth roots ≡ ok n
        → (v : Visited) × IsSound v × (all (contains v) (digests_of roots) ≡ true) × (length v ≡ n)
    unfolding verify_graph verify_from contains
    verify_graph-IsSound h =
        let (v, found, counted) = >>=-eq-ok (verify_from c disk max_count max_depth roots) _ h in
        let (good, rooted) =
          visit_all-IsGood [] (visit c disk max_count (suc max_depth) [])
            (visit-IsGood max_count (suc max_depth) []) roots [] v found tt (λ a m. cc) in
        (v, good.sound, rooted, ok-injective counted)

    -- A successful check has visited at most `max_count + max_depth` receipts; the receipts on the path
    -- to the root that is being visited are counted only on the way back.
    pub verify_graph_bounded :
        {n : ℕ} → verify_graph c disk max_count max_depth roots ≡ ok n → n ≤ max_count + max_depth
    unfolding verify_graph verify_from
    verify_graph_bounded h =
        let (v, found, counted) = >>=-eq-ok (verify_from c disk max_count max_depth roots) _ h in
        let fits =
          visit_all-Fits max_count (suc max_depth) (visit c disk max_count (suc max_depth) [])
            (visit-Fits max_count (suc max_depth) []) roots [] v found in
        let same = ok-injective counted in omega arith
