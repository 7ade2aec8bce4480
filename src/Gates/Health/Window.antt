-- ===== src/Gates/Health/Window.antt =====
-- What the verdict on a health window means (taskguard/v3/health.py).
use bricek4_ligong_skills.Base.{
  String, ◌≡◌, ◌≢◌, refl, sym, subst, ap, ◌∙◌, ◌⊎◌, inl, inr, Bool, true, false, ◌&&◌, List, [],
  ◌∷◌, append-nil, arith, ◌==◌, contains, contains-append, get, some, bool, All, all_iff, true_at,
  eq_iff, and-true, and-intro, ◌↔◌, ◌++◌, ◌-ℤ◌, ℤ, pos, leb_ℤ, is_empty, is_empty-append, all,
  reject, length, or-true, if◌then◌else◌, Bool-cases,
}
use bricek4_ligong_skills.Gates.Health.{
  HealthSample, has_signal, passes, is_complete, missing_reason, sample_reasons, samples_reasons,
  flag, is_of_revision, last_sample, window_reasons, verdict_on, evaluate_health_window,
}

-- Every required signal of every sample is `True`.
abbrev pub all_pass : List String → List HealthSample → Bool
all_pass required samples = all (λ s. all (passes s) required) samples

missing_fails :
    (s : HealthSample) (required : List String)
    → all (passes s) required ≡ true
    → missing_reason (reject (has_signal s) required) ≡ []
missing_fails s [] h = refl
missing_fails s (signal ∷ signals) h = ground (arith, missing_fails s signals)

sample_reasons-all_pass :
    (required : List String) (s : HealthSample)
    → ((all (passes s) required ≡ true) × (sample_reasons required s ≡ []))
      ⊎ ((all (passes s) required ≡ false)
          × (contains (sample_reasons required s) "HEALTH_SIGNAL_FAILED" ≡ true))
unfolding sample_reasons contains
sample_reasons-all_pass required s = elim (Bool-cases (all (passes s) required)) [
  | inl h ↦ inl (h, rw (missing_fails s required h, h))
  | inr h ↦ inr (
    h,
    rw (contains-append (missing_reason (reject (has_signal s) required)) _ "HEALTH_SIGNAL_FAILED")
        (rw h (or-true _)),
  )
]

samples_reasons-all_pass :
    (required : List String) (samples : List HealthSample)
    → ((all_pass required samples ≡ true) × (samples_reasons required samples ≡ []))
      ⊎ ((all_pass required samples ≡ false)
          × (contains (samples_reasons required samples) "HEALTH_SIGNAL_FAILED" ≡ true))
unfolding samples_reasons
samples_reasons-all_pass required [] = inl (refl, refl)
samples_reasons-all_pass required (s ∷ samples) =
    let later = samples_reasons-all_pass required samples in
    let split =
      contains-append (sample_reasons required s) (samples_reasons required samples)
        "HEALTH_SIGNAL_FAILED" in
    elim (sample_reasons-all_pass required s) [
      | inr (h, k) ↦ inr (rw h, split ∙ rw k)
      | inl (h, k) ↦ elim later [
        | inl (h', k') ↦ inl (rw (h, h'), rw (k, k'))
        | inr (h', k') ↦ inr (rw (h, h'), split ∙ rw (k', or-true))
      ]
    ]

-- The tests on the window as a whole.
abbrev pub window_passes : List HealthSample → String → ℤ → ℤ → Bool
window_passes values revision minimum_samples window_seconds =
    all (is_of_revision revision) values
    && (leb_ℤ minimum_samples (pos (length values)) && is_complete values window_seconds)

is_empty-flag : (b : Bool) (reason : String) → is_empty (flag b reason) ≡ b
is_empty-flag true reason = refl
is_empty-flag false reason = refl

is_empty-window_reasons :
    (values : List HealthSample) (revision : String) (m w : ℤ)
    → is_empty (window_reasons values revision m w) ≡ window_passes values revision m w
unfolding window_reasons
is_empty-window_reasons values revision m w =
    rw is_empty-append (rw is_empty-append (simp is_empty-flag))

flag_other :
    (b : Bool) (reason a : String) → (reason == a) ≡ false → contains (flag b reason) a ≡ false
unfolding contains
flag_other true reason a h = refl
flag_other false reason a h = rw h

window_reasons_other :
    (values : List HealthSample) (revision : String) (m w : ℤ)
    → contains (window_reasons values revision m w) "HEALTH_SIGNAL_FAILED" ≡ false
unfolding window_reasons
window_reasons_other values revision m w = rw contains-append (
    rw contains-append (
      rw (
        flag_other (all (is_of_revision revision) values) "EFFECT_REVISION_MISMATCH"
            "HEALTH_SIGNAL_FAILED" refl,
        flag_other (leb_ℤ m (pos (length values))) "INSUFFICIENT_SAMPLES" "HEALTH_SIGNAL_FAILED"
            refl,
        flag_other (is_complete values w) "HEALTH_WINDOW_INCOMPLETE" "HEALTH_SIGNAL_FAILED" refl,
      )))

-- The verdict, as a function of the two tests.
abbrev pub verdict_for : Bool → Bool → String
verdict_for false window = "FAILED"
verdict_for true true = "SUPPORTED"
verdict_for true false = "STALE"

verdict_on_window :
    (reasons : List String)
    → contains reasons "HEALTH_SIGNAL_FAILED" ≡ false
    → verdict_on reasons ≡ verdict_for true (is_empty reasons)
unfolding verdict_on
verdict_on_window reasons h = rw h (by_emptiness (is_empty reasons))
  where
    by_emptiness : (b : Bool) → (if b then "SUPPORTED" else "STALE") ≡ verdict_for true b
    by_emptiness true = refl
    by_emptiness false = refl

-- The verdict goes by the two tests.
health_verdict_tests :
    (values : List HealthSample) (revision : String) (required : List String) (m w : ℤ)
    → (evaluate_health_window values revision required m w).verdict
      ≡ verdict_for (all_pass required values) (window_passes values revision m w)
unfolding evaluate_health_window
health_verdict_tests values revision required m w =
    let window = window_reasons values revision m w in
    let found = contains-append window (samples_reasons required values) "HEALTH_SIGNAL_FAILED" in
    elim (samples_reasons-all_pass required values) [
      | inr (h, k) ↦ rw (h, found, k, or-true)
      | inl (h, k) ↦
          rw (k, h, append-nil)
            (verdict_on_window window (window_reasons_other values revision m w)
              ∙ ap (verdict_for true) (is_empty-window_reasons values revision m w))
    ]

-- Every sample holds `True` at every required signal.
pub IsPassing : List String → List HealthSample → Type 0
IsPassing required samples =
    All (λ s. All (λ signal. get s.signals signal ≡ some (bool true)) required) samples

-- All samples are of the revision, there are enough of them, and the last is late enough after the first.
pub record IsWindow (values : List HealthSample) (revision : String) (minimum window : ℤ)
    : Type 0 where
  pub one_revision : All (λ s. s.effect_revision ≡ revision) values
  pub enough : leb_ℤ minimum (pos (length values)) ≡ true
  pub first : HealthSample
  pub after_first : List HealthSample
  pub last : HealthSample
  pub before_last : List HealthSample
  pub from_first : values ≡ first ∷ after_first
  pub to_last : values ≡ before_last ++ (last ∷ [])
  pub spans : leb_ℤ window (last.tick -ℤ first.tick) ≡ true

last_sample-before :
    (x : HealthSample) (xs : List HealthSample)
    → (before : List HealthSample) × (x ∷ xs ≡ before ++ (last_sample x xs ∷ []))
last_sample-before x [] = ([], refl)
last_sample-before x (y ∷ ys) =
    let (before, same) = last_sample-before y ys in (x ∷ before, ap (λ zs. x ∷ zs) same)

last_sample-last :
    (before : List HealthSample) (x l : HealthSample) (xs : List HealthSample)
    → x ∷ xs ≡ before ++ (l ∷ [])
    → last_sample x xs ≡ l
last_sample-last [] x l [] h = cc
last_sample-last [] x l (y ∷ ys) h = cc
last_sample-last (b ∷ []) x l [] h = cc
last_sample-last (b ∷ (d ∷ before)) x l [] h = cc
last_sample-last (b ∷ before) x l (y ∷ ys) h = last_sample-last before y l ys (cc h)

all_pass_iff :
    (required : List String) (samples : List HealthSample)
    → (all_pass required samples ≡ true) ↔ IsPassing required samples
unfolding IsPassing
all_pass_iff required samples =
    all_iff (λ s. all (passes s) required)
      (λ s. All (λ signal. get s.signals signal ≡ some (bool true)) required)
      (λ s.
        all_iff (passes s) (λ signal. get s.signals signal ≡ some (bool true))
          (λ signal. true_at (get s.signals signal)) required)
      samples

window_passes_iff :
    (values : List HealthSample) (revision : String) (m w : ℤ)
    → (window_passes values revision m w ≡ true) ↔ IsWindow values revision m w
window_passes_iff [] revision m w = (
  λ h. let (_, none) = and-true (leb_ℤ m (pos 0)) false h in absurd (cc none),
  λ window. absurd (cc window.from_first),
)
window_passes_iff (x ∷ xs) revision m w =
    let of_revision =
      all_iff (is_of_revision revision) (λ s. s.effect_revision ≡ revision)
        (λ s. eq_iff s.effect_revision revision) (x ∷ xs) in
    (
      λ h.
          let (same, rest) = and-true (all (is_of_revision revision) (x ∷ xs)) _ h in
          let (enough, spans) = and-true (leb_ℤ m (pos (length (x ∷ xs)))) _ rest in
          let (before, to_last) = last_sample-before x xs in
          record {
            one_revision = of_revision.0 same;
            enough = enough;
            first = x;
            after_first = xs;
            last = last_sample x xs;
            before_last = before;
            from_first = refl;
            to_last = to_last;
            spans = spans;
          },
      λ window.
          let same_last = last_sample-last window.before_last x window.last xs window.to_last in
          let same_first : x ≡ window.first = cc window.from_first in
          and-intro (of_revision.1 window.one_revision)
            (and-intro window.enough (rw (same_last, same_first) window.spans)),
    )

other_text : (a b : String) → (a == b) ≡ false → a ≢ b
other_text a b h e = cc ((eq_iff a b).1 e)

verdict_for_iff :
    (a b : Bool) (P Q : Type 0)
    → (a ≡ true) ↔ P
    → (b ≡ true) ↔ Q
    → (verdict_for a b ≡ "SUPPORTED" ↔ (P × Q))
      × (verdict_for a b ≡ "FAILED" ↔ (¬ P))
      × (verdict_for a b ≡ "STALE" ↔ (P × (¬ Q)))
verdict_for_iff false b P Q p q = (
  (λ h. absurd (other_text "FAILED" "SUPPORTED" refl h), λ (x, y). cc (p.1 x)),
  (λ h x. cc (p.1 x), λ none. refl),
  (λ h. absurd (other_text "FAILED" "STALE" refl h), λ (x, y). cc (p.1 x)),
)
verdict_for_iff true true P Q p q = (
  (λ h. (p.0 refl, q.0 refl), λ both. refl),
  (λ h. absurd (other_text "SUPPORTED" "FAILED" refl h), λ none. absurd (none (p.0 refl))),
  (λ h. absurd (other_text "SUPPORTED" "STALE" refl h), λ (x, none). absurd (none (q.0 refl))),
)
verdict_for_iff true false P Q p q = (
  (λ h. absurd (other_text "STALE" "SUPPORTED" refl h), λ (x, y). cc (q.1 y)),
  (λ h. absurd (other_text "STALE" "FAILED" refl h), λ none. absurd (none (p.0 refl))),
  (λ h. (p.0 refl, λ y. cc (q.1 y)), λ both. refl),
)

-- The verdict is SUPPORTED exactly when every sample holds `True` at every required signal, all are of the effect's
-- revision, there are at least the minimum of them, and the last tick minus the first is at least the window; it is
-- FAILED exactly when some sample does not hold `True` at a required signal, whatever else is wrong, and STALE
-- exactly when all do and the window does not hold.
pub health_verdict_exact :
    (values : List HealthSample) (revision : String) (required : List String) (m w : ℤ)
    → ((evaluate_health_window values revision required m w).verdict ≡ "SUPPORTED"
        ↔ (IsPassing required values × IsWindow values revision m w))
      × ((evaluate_health_window values revision required m w).verdict ≡ "FAILED"
          ↔ (¬ IsPassing required values))
      × ((evaluate_health_window values revision required m w).verdict ≡ "STALE"
          ↔ (IsPassing required values × (¬ IsWindow values revision m w)))
health_verdict_exact values revision required m w =
    subst
      (λ verdict.
        (verdict ≡ "SUPPORTED" ↔ (IsPassing required values × IsWindow values revision m w))
        × (verdict ≡ "FAILED" ↔ (¬ IsPassing required values))
        × (verdict ≡ "STALE" ↔ (IsPassing required values × (¬ IsWindow values revision m w))))
      (sym (health_verdict_tests values revision required m w))
      (verdict_for_iff (all_pass required values) (window_passes values revision m w) _ _
        (all_pass_iff required values) (window_passes_iff values revision m w))
