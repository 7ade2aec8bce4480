-- ===== src/Gates/Health.antt =====
-- taskguard/v3/health.py: the verdict on a window of health samples of one effect revision.
pub mod Window
use bricek4_ligong_skills.Base.{
  ℕ, String, ◌≡◌, ◌≢◌, refl, sym, ap, ap₂, ◌∙◌, ◌↔◌, ◌⊎◌, inl, inr, false≢true, Bool, true, false,
  not, ◌&&◌, ◌||◌, Option, none, some, List, [], ◌∷◌, ◌++◌, arith, ◌==◌, eq_iff, eq_refl, Mapping,
  get, get_value, contains, contains-append, Value, or_null, is_true, ℤ, pos, leb_ℤ, ltb_ℤ, ◌-ℤ◌,
  is_empty, is_empty-append, all, any, reject, is_empty-reject, length, and-true, and-intro,
  or-false, or-true, ◌+++◌, if◌then◌else◌, Bool-cases, sorted_set, contains-sorted_set,
  is_empty-sorted_set,
}

pub record HealthSample : Type 0 where
  pub effect_revision : String
  pub tick : ℤ
  pub signals : Mapping Value

pub record HealthVerdict : Type 0 where
  pub verdict : String
  pub reasons : List String
  pub sample_count : ℕ
  pub window_complete : Bool

-- `signal in sample.signals`
abbrev is_found : Option Value → Bool
is_found none = false
is_found (some v) = true

abbrev has_signal : HealthSample → String → Bool
has_signal sample signal = is_found (get sample.signals signal)

-- `sample.signals.get(signal) is True`
abbrev pub passes : HealthSample → String → Bool
passes sample signal = is_true (or_null (get sample.signals signal))

-- `values[-1]`
abbrev pub last_sample : HealthSample → List HealthSample → HealthSample
last_sample x [] = x
last_sample x (y ∷ ys) = last_sample y ys

-- `bool(values) and values[-1].tick - values[0].tick >= window_seconds`
abbrev pub is_complete : List HealthSample → ℤ → Bool
is_complete [] window = false
is_complete (x ∷ xs) window = leb_ℤ window ((last_sample x xs).tick -ℤ x.tick)

-- `if missing: reasons.append(f"MISSING_SIGNAL/{missing[0]}")`
abbrev missing_reason : List String → List String
missing_reason [] = []
missing_reason (signal ∷ signals) = ("MISSING_SIGNAL/" +++ signal) ∷ []

sample_reasons : List String → HealthSample → List String
sample_reasons required sample =
    missing_reason (reject (has_signal sample) required)
    ++ (if all (passes sample) required then [] else "HEALTH_SIGNAL_FAILED" ∷ [])

samples_reasons : List String → List HealthSample → List String
samples_reasons required [] = []
samples_reasons required (sample ∷ samples) =
    sample_reasons required sample ++ samples_reasons required samples

abbrev flag : Bool → String → List String
flag holds reason = if holds then [] else reason ∷ []

abbrev pub is_of_revision : String → HealthSample → Bool
is_of_revision revision sample = sample.effect_revision == revision

window_reasons : List HealthSample → String → ℤ → ℤ → List String
window_reasons values revision minimum_samples window_seconds =
    flag (all (is_of_revision revision) values) "EFFECT_REVISION_MISMATCH"
    ++ (flag (leb_ℤ minimum_samples (pos (length values))) "INSUFFICIENT_SAMPLES"
        ++ flag (is_complete values window_seconds) "HEALTH_WINDOW_INCOMPLETE")

verdict_on : List String → String
verdict_on reasons =
    if contains reasons "HEALTH_SIGNAL_FAILED"
    then "FAILED"
    else if is_empty reasons
    then "SUPPORTED"
    else "STALE"

unfoldable pub evaluate_health_window :
    List HealthSample → String → List String → ℤ → ℤ → HealthVerdict
unfolding window_reasons samples_reasons sample_reasons verdict_on
evaluate_health_window values revision required minimum_samples window_seconds =
    let reasons =
      window_reasons values revision minimum_samples window_seconds
      ++ samples_reasons required values in
    record {
      verdict = verdict_on reasons;
      reasons = sorted_set reasons;
      sample_count = length values;
      window_complete = is_complete values window_seconds;
    }
