-- ===== src/Gates/Policy/Unique.antt =====
-- The rules of a release policy that authorise a mode (taskguard/v3/release_policy.py).
use bricek4_ligong_skills.Base.{
  ◌≤◌, String, ◌≡◌, ◌≢◌, refl, sym, ◌∙◌, ◌↔◌, inl, inr, false≢true, true, false, ◌&&◌, List, [],
  ◌∷◌, arith, ◌==◌, eq_iff, ok, raise_if-passed, Mapping, get_value, Value, Items, nil, cons, str,
  null, bool, int, list, tuple, dict, is_text, is_texts, any, select, length, and-true, and-intro,
  Bool-cases,
}
use bricek4_ligong_skills.Gates.Policy.{
  ReleaseRule, Setting, text, texts, settings_of, texts_eq, setting_eq, settings_eq, same_key,
  are_distinct, ReleasePolicy, new_policy, value_is, settings_match, matches, first_match,
  authorize_mode,
}

-- One value cannot equal two different settings.
text_agrees : (v : Value) (s t : String) → is_text v s ≡ true → is_text v t ≡ true → (s == t) ≡ true
text_agrees (str u) s t h k = (eq_iff s t).1 (sym ((eq_iff u s).0 h) ∙ (eq_iff u t).0 k)
text_agrees _ s t h k = cc

texts_agree :
    (vs : Items) (ss ts : List String)
    → is_texts vs ss ≡ true
    → is_texts vs ts ≡ true
    → texts_eq ss ts ≡ true
texts_agree nil [] [] h k = refl
texts_agree nil [] (t ∷ ts) h k = cc
texts_agree nil (s ∷ ss) ts h k = cc
texts_agree (cons v vs) [] ts h k = cc
texts_agree (cons v vs) (s ∷ ss) [] h k = cc
texts_agree (cons v vs) (s ∷ ss) (t ∷ ts) h k =
    let (h₁, h₂) = and-true (is_text v s) (is_texts vs ss) h in
    let (k₁, k₂) = and-true (is_text v t) (is_texts vs ts) k in
    and-intro (text_agrees v s t h₁ k₁) (texts_agree vs ss ts h₂ k₂)

value_agrees :
    (v : Value) (a b : Setting) → value_is v a ≡ true → value_is v b ≡ true → setting_eq a b ≡ true
value_agrees v (text s) (text t) h k = text_agrees v s t h k
value_agrees (tuple vs) (texts ss) (texts ts) h k = texts_agree vs ss ts h k
value_agrees (str u) (text s) (texts ts) h k = cc
value_agrees (tuple vs) (text s) (texts ts) h k = cc
value_agrees (str u) (texts ss) b h k = cc
value_agrees (tuple vs) (texts ss) (text t) h k = cc
value_agrees null a b h k = ground arith
value_agrees (bool x) a b h k = ground arith
value_agrees (int x) a b h k = ground arith
value_agrees (list x) a b h k = ground arith
value_agrees (dict x) a b h k = ground arith

-- Two lists of settings under the same names.
abbrev SameNames : List (String × Setting) → List (String × Setting) → Type 0
SameNames [] [] = Unit
SameNames ((m, _) ∷ xs) ((n, _) ∷ ys) = (m ≡ n) × SameNames xs ys
SameNames _ _ = ⊥

settings_agree :
    (binding : Mapping Value) (xs ys : List (String × Setting))
    → SameNames xs ys
    → settings_match binding xs ≡ true
    → settings_match binding ys ≡ true
    → settings_eq xs ys ≡ true
unfolding settings_match settings_eq
settings_agree binding [] [] e h k = refl
settings_agree binding ((m, a) ∷ xs) ((n, b) ∷ ys) (e, es) h k =
    let (h₁, h₂) = and-true (value_is (get_value binding m) a) (settings_match binding xs) h in
    let (k₁, k₂) = and-true (value_is (get_value binding n) b) (settings_match binding ys) k in
    and-intro (value_agrees (get_value binding m) a b h₁ (rw e k₁))
      (settings_agree binding xs ys es h₂ k₂)
settings_agree binding [] (y ∷ ys) e h k = absurd e
settings_agree binding (x ∷ xs) [] e h k = absurd e

matches-same_key :
    (binding : Mapping Value) (mode : String) (r s : ReleaseRule)
    → matches binding mode r ≡ true
    → matches binding mode s ≡ true
    → same_key r s ≡ true
unfolding matches same_key
matches-same_key binding mode r s h k =
    let (h₁, h₂) =
      and-true (r.enabled && r.mode == mode) (settings_match binding (settings_of r)) h in
    let (k₁, k₂) =
      and-true (s.enabled && s.mode == mode) (settings_match binding (settings_of s)) k in
    and-intro
      (settings_agree binding (settings_of r) (settings_of s)
        (refl, (refl, (refl, (refl, (refl, (refl, (refl, (refl, (refl, tt))))))))) h₂ k₂)
      ((eq_iff r.mode s.mode).1 (
        (eq_iff r.mode mode).0 (and-true _ _ h₁).1
        ∙ sym ((eq_iff s.mode mode).0 (and-true _ _ k₁).1)))

unsupported≢supported : ◌≢◌ {A = String} "UNSUPPORTED" "SUPPORTED"
unsupported≢supported e = false≢true ((eq_iff "UNSUPPORTED" "SUPPORTED").1 e)

no_other :
    (binding : Mapping Value) (mode : String) (r : ReleaseRule) (rs : List ReleaseRule)
    → matches binding mode r ≡ true
    → any (same_key r) rs ≡ false
    → select (matches binding mode) rs ≡ []
no_other binding mode r [] h k = refl
no_other binding mode r (s ∷ rs) h k =
    ground (arith, matches-same_key binding mode r s, no_other binding mode r rs)

at_most_one :
    (binding : Mapping Value) (mode : String) (rs : List ReleaseRule)
    → are_distinct rs ≡ true
    → length (select (matches binding mode) rs) ≤ 1
unfolding are_distinct
at_most_one binding mode [] h = omega arith
at_most_one binding mode (r ∷ rs) h =
    ground (arith, no_other binding mode r rs, at_most_one binding mode rs)

first_match_iff :
    (binding : Mapping Value) (mode : String) (rs : List ReleaseRule)
    → ((first_match binding mode rs).status ≡ "SUPPORTED") ↔ (any (matches binding mode) rs ≡ true)
unfolding first_match
first_match_iff binding mode [] = (λ h. cc ((eq_iff "UNSUPPORTED" "SUPPORTED").1 h), λ h. cc)
first_match_iff binding mode (r ∷ rs) =
    let rest = first_match_iff binding mode rs in
    (λ h. ground (arith, rest.0), λ h. ground (arith, rest.1))

authorize_mode_iff :
    (p : ReleasePolicy) (binding : Mapping Value) (mode : String)
    → ((authorize_mode p binding mode).status ≡ "SUPPORTED")
      ↔ ((p.trusted_source ≡ true) × (any (matches binding mode) p.rules ≡ true))
unfolding authorize_mode
authorize_mode_iff p binding mode =
    let rule = first_match_iff binding mode p.rules in
    (
      λ h. elim (Bool-cases p.trusted_source) [
        | inl yes_trusted ↦ (yes_trusted, rule.0 (rw yes_trusted at h))
        | inr untrusted ↦ absurd (unsupported≢supported (rw untrusted at h))
      ],
      λ h. rw h.0 (rule.1 h.1),
    )

-- A policy that its constructor accepts authorises a mode exactly when its source is trusted and an
-- enabled rule of the mode equals the binding in every field; and for any binding and mode there is at
-- most one such rule, since no two rules agree in all fields but `enabled`.
pub authorize_mode_exact :
    (q : ReleasePolicy) {p : ReleasePolicy}
    → new_policy q ≡ ok p
    → (binding : Mapping Value) (mode : String)
    → (((authorize_mode p binding mode).status ≡ "SUPPORTED")
        ↔ ((p.trusted_source ≡ true) × (any (matches binding mode) p.rules ≡ true)))
      × (length (select (matches binding mode) p.rules) ≤ 1)
unfolding new_policy
authorize_mode_exact q {p} made binding mode =
    let (managed, made₁) = raise_if-passed _ _ _ made in
    let (distinct, made₂) = raise_if-passed _ _ _ made₁ in
    (authorize_mode_iff p binding mode, at_most_one binding mode p.rules (ground arith))
