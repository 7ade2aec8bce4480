-- ===== src/Store/Completeness.antt =====
-- When `verify_graph` of taskguard/v3/receipt_store.py succeeds.
use bricek4_ligong_skills.Base.{
  ℕ, zero, suc, ◌≤◌, String, ◌≡◌, refl, sym, inl, inr, true, false, List, [], ◌∷◌, arith, ◌==◌,
  eq_iff, Outcome, ok, raise_if, contains, leb, length, all, and-intro, Once, length-Once,
  Bool-cases, All,
}
use bricek4_ligong_skills.Receipts.{ReceiptRef}
use bricek4_ligong_skills.Store.{Codec, Disk, GraphError}
use bricek4_ligong_skills.Store.Graph.{Visited, visit_all, visit, verify_from, verify_graph}
use bricek4_ligong_skills.Store.Ancestors.{
  IsParent, Descends, child, Descends-parent, IsGrounded, acyclic, All-of_members,
}
use bricek4_ligong_skills.Store.Soundness.{
  IsSound, Avoids, Keeps, Avoids-cons, visit-IsGood, visit_all-IsGood,
}

IsSound-Once : (c : Codec) (disk : Disk) (v : Visited) → IsSound c disk v → Once v
IsSound-Once c disk [] s = tt
IsSound-Once c disk (d ∷ v) (here, s) = (here.fresh, IsSound-Once c disk v s)

module _ (c : Codec) (disk : Disk) where
  module _ (known : List String) where
    -- Each digest of the path is that of a grounded reference from which `ref` descends.
    OnPath : List String → ReceiptRef → Type 0
    OnPath path ref =
        (d : String)
        → contains path d ≡ true
        → (a : ReceiptRef) × (levels : ℕ) × IsGrounded c disk known levels a
          × (a.digest ≡ d)
          × Descends c disk a ref

    off_path :
        (path : List String) (ref : ReceiptRef) → OnPath path ref → contains path ref.digest ≡ false
    unfolding OnPath
    off_path path ref on = elim (Bool-cases (contains path ref.digest)) [
      | inl cyclic ↦
          let (a, levels, grounded, same, descends) = on ref.digest cyclic in
          absurd (acyclic c disk known levels a ref grounded descends (sym same))
      | inr off ↦ off
    ]

    OnPath-parent :
        (path : List String) (ref parent : ReceiptRef) (levels : ℕ)
        → IsGrounded c disk known levels ref
        → OnPath path ref
        → IsParent c disk parent ref
        → OnPath (ref.digest ∷ path) parent
    unfolding OnPath contains
    OnPath-parent path ref parent levels grounded on e d h = elim (Bool-cases (ref.digest == d)) [
      | inl here ↦ (ref, levels, grounded, (eq_iff ref.digest d).0 here, child e)
      | inr other ↦
          let (a, deeper, above, same, descends) = on d (rw other at h) in
          (a, deeper, above, same, Descends-parent c disk descends e)
    ]

    module _ (max_count : ℕ) (enough : length known ≤ max_count) where
      -- A step that succeeds where the ancestors are grounded, and stays among the known digests.
      Succeeds : ℕ → List String → (ReceiptRef → Visited → Outcome GraphError Visited) → Type 0
      Succeeds levels path step =
          (ref : ReceiptRef) (v : Visited)
          → IsGrounded c disk known levels ref
          → OnPath path ref
          → IsSound c disk v
          → Avoids path v
          → all (contains known) v ≡ true
          → (w : Visited) × (step ref v ≡ ok w) × (all (contains known) w ≡ true)

      visit_all-Succeeds :
          (levels : ℕ) (path : List String)
          (step : ReceiptRef → Visited → Outcome GraphError Visited)
          → Succeeds levels path step
          → Keeps c disk path step
          → (refs : List ReceiptRef) (v : Visited) → All (IsGrounded c disk known levels) refs
          → All (OnPath path) refs
          → IsSound c disk v
          → Avoids path v
          → all (contains known) v ≡ true
          → (w : Visited) × (visit_all step refs v ≡ ok w) × (all (contains known) w ≡ true)
      unfolding visit_all Succeeds
      visit_all-Succeeds levels path step succeeds keep [] v g o s a k = (v, refl, k)
      visit_all-Succeeds levels path step succeeds keep (ref ∷ refs) v (g, gs) (o, os) s a k =
          let (u, first, within) = succeeds ref v g o s a k in
          let (good, _) = keep ref v u first s a in
          let (w, rest, all_within) =
            visit_all-Succeeds levels path step succeeds keep refs u gs os good.sound good.avoids
              within in
          (w, rw first rest, all_within)

      room_left :
          (d : String) (v : Visited)
          → IsSound c disk v
          → contains v d ≡ false
          → contains known d ≡ true
          → all (contains known) v ≡ true
          → leb max_count (length v) ≡ false
      room_left d v s new here k =
          let fits = length-Once (d ∷ v) known (new, IsSound-Once c disk v s) (and-intro here k) in
          ground (arith, fits, enough)

      visit-Succeeds :
          (levels : ℕ) (path : List String)
          → Succeeds levels path (visit c disk max_count levels path)
      unfolding Succeeds visit IsGrounded raise_if
      visit-Succeeds zero path ref v g o s a k = absurd g
      visit-Succeeds (suc levels) path ref v (here, (r, loaded, parents)) o s a k =
          elim (Bool-cases (contains v ref.digest)) [
            | inl old ↦ (v, rw (off_path path ref o, old) refl, k)
            | inr new ↦
                let on_path = All-of_members (OnPath (ref.digest ∷ path)) r.parents (λ p m.
                  OnPath-parent path ref p (suc levels) (here, (r, loaded, parents)) o
                    (record { receipt = r; loaded = loaded; named = m })) in
                let (w, visited, within) =
                  visit_all-Succeeds levels (ref.digest ∷ path)
                    (visit c disk max_count levels (ref.digest ∷ path))
                    (visit-Succeeds levels (ref.digest ∷ path))
                    (visit-IsGood c disk max_count levels (ref.digest ∷ path)) r.parents v parents
                    on_path s (Avoids-cons c disk max_count path ref.digest v a new) k in
                (
                  ref.digest ∷ w,
                  rw
                      (
                        off_path path ref o,
                        new,
                        room_left ref.digest v s new here k,
                        loaded,
                        visited,
                      )
                      refl,
                  and-intro here within,
                )
          ]

      -- If every root is grounded in as many generations as the depth allows, and the digests of all of them and their
      -- ancestors are among at most `max_count` known ones, then the check of the graph succeeds, and counts no more
      -- receipts than are known.
      pub verify_graph-succeeds :
          (max_depth : ℕ) (roots : List ReceiptRef)
          → All (IsGrounded c disk known (suc max_depth)) roots
          → (n : ℕ) × (verify_graph c disk max_count max_depth roots ≡ ok n) × (n ≤ length known)
      unfolding verify_graph verify_from contains OnPath
      verify_graph-succeeds max_depth roots grounded =
          let (w, visited, within) =
            visit_all-Succeeds (suc max_depth) [] (visit c disk max_count (suc max_depth) [])
              (visit-Succeeds (suc max_depth) []) (visit-IsGood c disk max_count (suc max_depth) [])
              roots [] grounded (All-of_members (OnPath []) roots (λ a m d h. absurd (cc h))) tt
              (λ a m. cc) refl in
          let (good, _) =
            visit_all-IsGood c disk [] (visit c disk max_count (suc max_depth) [])
              (visit-IsGood c disk max_count (suc max_depth) []) roots [] w visited tt
              (λ a m. cc) in
          (length w, rw visited refl, length-Once w known (IsSound-Once c disk w good.sound) within)
