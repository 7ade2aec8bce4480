-- ===== src/StateStore/Runs.antt =====
-- Sequences of calls of the methods of taskguard/state.py that write.
use bricek4_ligong_skills.Base.{
  ◌≡◌, sym, subst, String, some, List, [], ◌∷◌, Value, Fields, inl, inr,
}
use bricek4_ligong_skills.StateStore.{Codec, Disk}
use bricek4_ligong_skills.StateStore.Files.{Fault}
use bricek4_ligong_skills.StateStore.Operations.{create, update, disposition}
use bricek4_ligong_skills.StateStore.Table.{Row, Table, Steps, here, next, Succeeds, Steps-Keeps}
use bricek4_ligong_skills.StateStore.Refinement.{
  IsFaithful, table, Refines, create-Refines, update-Refines, disposition-Refines,
}

-- A call of a method that writes, with its arguments and the fault that strikes it.
pub data Call : Type 0 where
  creates : Value → Value → Fields → Call
  updates : Value → Value → Value → Fault → Fields → Call
  disposes : Value → Value → Value → Value → Call

module _ {Text : Type 0} (codec : Codec Text) where
  unfoldable pub perform : Call → Disk Text → Disk Text
  perform (creates id owner fields) disk = (create codec id owner fields disk).1
  perform (updates id revision owner fault changes) disk =
      (update codec id revision owner fault changes disk).1
  perform (disposes id revision owner verdict) disk =
      (disposition codec id revision owner verdict disk).1

  -- The calls in the order in which they get the lock.
  unfoldable pub run : List Call → Disk Text → Disk Text
  unfolding perform
  run [] disk = disk
  run (c ∷ calls) disk = run calls (perform c disk)

module _ {Text : Type 0} (codec : Codec Text) (faithful : IsFaithful codec) where
  perform-Refines :
      (c : Call) (disk : Disk Text) → Refines codec faithful disk (perform codec c disk)
  unfolding perform
  perform-Refines (creates id owner fields) disk =
      create-Refines codec faithful id owner fields disk
  perform-Refines (updates id revision owner fault changes) disk =
      update-Refines codec faithful id revision owner fault changes disk
  perform-Refines (disposes id revision owner verdict) disk =
      disposition-Refines codec faithful id revision owner verdict disk

  run-Steps :
      (calls : List Call) (disk : Disk Text) {t : Table}
      → Steps t (table codec disk)
      → Steps t (table codec (run codec calls disk))
  unfolding run
  run-Steps [] disk steps = steps
  run-Steps (c ∷ calls) disk {t} steps = elim (perform-Refines c disk) [
    | inl same ↦
        run-Steps calls (perform codec c disk)
          (subst (λ d. Steps t (table codec d)) (sym same) steps)
    | inr step ↦ run-Steps calls (perform codec c disk) (next steps step)
  ]

  -- Whatever calls are made in whatever order, faults included, the disk goes through steps of the table: rows are
  -- opened once and then revised, each revision adding one to the revision that the caller expected.
  pub run-Refines :
      (calls : List Call) (disk : Disk Text)
      → Steps (table codec disk) (table codec (run codec calls disk))
  run-Refines calls disk = run-Steps calls disk here

  -- A manifest that is there stays there through all calls, with its operation id, its owner, its schema and its
  -- admission anchor, and its revision does not go down.
  pub run-Succeeds :
      (calls : List Call) (disk : Disk Text) (id : String) (row : Row)
      → table codec disk id ≡ some row
      → (new : Row) × (table codec (run codec calls disk) id ≡ some new) × Succeeds row new
  run-Succeeds calls disk id row at = Steps-Keeps (run-Refines calls disk) id row at
