-- ===== src/Store/Graph.antt =====
-- `verify_graph` of taskguard/v3/receipt_store.py: a depth-first search over the parents.
use bricek4_ligong_skills.Base.{
  ℕ, zero, suc, String, List, [], ◌∷◌, Outcome, ok, err, ◌>>=◌, ◌>>◌, raise_if, contains, leb,
  length, if◌then◌else◌,
}
use bricek4_ligong_skills.Receipts.{ReceiptRef}
use bricek4_ligong_skills.Store.{
  Codec, Disk, IntegrityError, GraphError, too_deep, cyclic, too_many, broken, load,
}

abbrev pub wrap : {A : Type 0} → Outcome IntegrityError A → Outcome GraphError A
wrap (ok a) = ok a
wrap (err e) = err (broken e)

-- The set `visited`, with the digest that was added last in front.
abbrev pub Visited : Type 0
Visited = List String

-- `for parent in parents: visit(parent, depth + 1)`
unfoldable pub visit_all :
    (ReceiptRef → Visited → Outcome GraphError Visited)
    → List ReceiptRef
    → Visited
    → Outcome GraphError Visited
visit_all step [] visited = ok visited
visit_all step (ref ∷ refs) visited = do visited' ← step ref visited; visit_all step refs visited'

module _ (c : Codec) (disk : Disk) (max_count : ℕ) where
  -- `visit(ref, depth)`, where the first argument is `max_depth + 1 - depth`: at zero the depth exceeds
  -- the maximum. `visiting` is the path from the root.
  unfoldable pub visit : ℕ → List String → ReceiptRef → Visited → Outcome GraphError Visited
  visit zero visiting ref visited = err too_deep
  visit (suc room) visiting ref visited =
      let search = do
        raise_if (leb max_count (length visited)) too_many
        receipt ← wrap (load c disk ref)
        visited' ← visit_all (visit room (ref.digest ∷ visiting)) receipt.parents visited
        ok (ref.digest ∷ visited')
      in if contains visiting ref.digest
        then err cyclic
        else if contains visited ref.digest
        then ok visited
        else search

  -- The loop over the roots. `verify_graph` returns the number of the digests visited.
  unfoldable pub verify_from : ℕ → List ReceiptRef → Outcome GraphError Visited
  verify_from max_depth roots = visit_all (visit (suc max_depth) []) roots []

  unfoldable pub verify_graph : ℕ → List ReceiptRef → Outcome GraphError ℕ
  verify_graph max_depth roots = do visited ← verify_from max_depth roots; ok (length visited)
