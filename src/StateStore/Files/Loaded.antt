-- ===== src/StateStore/Files/Loaded.antt =====
-- What `_load_unlocked` of taskguard/state.py returns stands on disk and passed the checks.
use bricek4_ligong_skills.Base.{
  ◌≡◌, ap, subst, String, not, Option, none, some, ok, >>=-elim, raise_if-passed, ok-injective, get,
  Value, Fields, null, bool, int, str, list, tuple, dict, all, ltb, Bool-cases, inl, inr, ◌==◌,
}
use bricek4_ligong_skills.StateStore.{
  Codec, Entry, text, refused, Disk, item, has_field, required_fields, max_state_bytes,
}
use bricek4_ligong_skills.StateStore.Resources.{validate_json_resources}
use bricek4_ligong_skills.StateStore.Files.{
  object_of, persisted_of, checksum, check_fields, check_payload, loaded, entry_of, load_unlocked,
}

object_of-dict : (value : Value) (fs : Fields) → object_of value ≡ ok fs → value ≡ dict fs
unfolding object_of
object_of-dict (dict gs) fs h = ap dict (ok-injective h)
object_of-dict null fs h = absurd (cc h)
object_of-dict (bool b) fs h = absurd (cc h)
object_of-dict (int n) fs h = absurd (cc h)
object_of-dict (str s) fs h = absurd (cc h)
object_of-dict (list vs) fs h = absurd (cc h)
object_of-dict (tuple vs) fs h = absurd (cc h)

module _ {Text : Type 0} (codec : Codec Text) (id : String) where
  check_payload-dict :
      (value : Value) (current : Fields)
      → check_payload codec id value ≡ ok current
      → (value ≡ dict current) × (check_fields id current ≡ ok tt)
  unfolding check_payload
  check_payload-dict value current h = >>=-elim (validate_json_resources value) _ h λ _ _ h1.
      >>=-elim (object_of value) _ h1 λ payload is_payload h2.
        let (_, h3) = raise_if-passed (not (all (has_field payload) required_fields)) _ _ h2 in
        >>=-elim (persisted_of (item payload "checksum")) _ h3 λ persisted _ h4.
          >>=-elim (checksum codec payload) _ h4 λ expected _ h5.
            let (_, h6) = raise_if-passed (not (persisted == expected)) _ _ h5 in
            >>=-elim (check_fields id payload) _ h6 λ _ checked h7.
              let same : payload ≡ current = ok-injective h7 in
              subst (λ p. (value ≡ dict p) × (check_fields id p ≡ ok tt)) same
                (object_of-dict value payload is_payload, checked)

  entry_of-text : (o : Option (Entry Text)) (t : Text) → entry_of codec o ≡ ok t → o ≡ some (text t)
  unfolding entry_of
  entry_of-text none t h = absurd (cc h)
  entry_of-text (some refused) t h = absurd (cc h)
  entry_of-text (some (text raw)) t h = elim (Bool-cases (ltb max_state_bytes (codec.size raw))) [
    | inl large ↦ absurd (cc (rw (entry_of, large) at h))
    | inr fit ↦ ap (λ r. some (text r)) (ok-injective (rw (entry_of, fit) at h))
  ]

  loaded-value :
      (o : Option Value) (current : Fields)
      → loaded codec id o ≡ ok current
      → (o ≡ some (dict current)) × (check_fields id current ≡ ok tt)
  unfolding loaded
  loaded-value none current h = absurd (cc h)
  loaded-value (some value) current h =
      let (eq, checked) = check_payload-dict value current h in (ap some eq, checked)

  pub load_unlocked-read :
      (disk : Disk Text) (current : Fields)
      → load_unlocked codec id disk ≡ ok current
      → (t : Text) × (get disk id ≡ some (text t))
        × (codec.loads t ≡ some (dict current))
        × (check_fields id current ≡ ok tt)
  unfolding load_unlocked
  load_unlocked-read disk current h = >>=-elim (entry_of codec (get disk id)) _ h λ t found h1.
      let (read, checked) = loaded-value (codec.loads t) current h1 in
      (t, entry_of-text (get disk id) t found, read, checked)
