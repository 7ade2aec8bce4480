-- ===== src/Router/Agreement.antt =====
-- The protocol of a command agrees with the files that it names (taskguard/router.py).
use bricek4_ligong_skills.Base.{
  ℕ, String, ◌≡◌, refl, sym, subst, ap, ◌∙◌, ◌⊎◌, inl, inr, Bool, true, false, ◌&&◌, Option, none,
  some, arith, Outcome, ok, err, >>=-eq-ok, ok-injective, contains, eqb, if◌then◌else◌, Value,
  Bool-cases,
}
use bricek4_ligong_skills.Router.{
  RouteError, protocol_from_contract, protocol_from_task_manifest, v3_only_commands,
  stateless_commands, Loaded, version_by, state_read, is_none, choose, resolve_protocol,
}

-- A version that comes from a file is the one of that file.
abbrev Agrees : (Value → Outcome RouteError ℕ) → Loaded → ℕ → Type 0
Agrees f file n = (raw : Value) → file ≡ some (ok raw) → f raw ≡ ok n

some-injective : {A : Type 0} {a b : A} → some a ≡ some b → a ≡ b
some-injective h = cc

version_by-found :
    (f : Value → Outcome RouteError ℕ) (file : Loaded) {o : Option ℕ}
    → version_by f file ≡ ok o
    → (raw : Value) → file ≡ some (ok raw)
    → (n : ℕ) × (o ≡ some n) × (f raw ≡ ok n)
version_by-found f none h raw e = cc
version_by-found f (some (err x)) h raw e = cc
version_by-found f (some (ok v)) h raw e =
    let same : v ≡ raw = ok-injective (some-injective e) in
    let (n, found, made) = >>=-eq-ok (f v) _ h in
    (n, sym (ok-injective made), subst (λ x. f x ≡ ok n) same found)

not_both : {A : Type 0} (b : Bool) (x y : A) → (if b && false then x else y) ≡ y
not_both true x y = refl
not_both false x y = refl

equal_numbers : (a b : ℕ) → eqb a b ≡ true → a ≡ b
equal_numbers a b h = ground arith

none_given : {A : Type 0} (o : Option A) → is_none o ≡ true → o ≡ none
none_given none h = refl
none_given (some a) h = cc

choose-none :
    (command : String) (state : Loaded) (c t : Option ℕ) {v : ℕ}
    → choose command (is_none state) c t ≡ ok v
    → c ≡ none
    → t ≡ none
    → ((contains v3_only_commands command ≡ true) × (v ≡ 3))
      ⊎ ((contains stateless_commands command ≡ true) × (state ≡ none) × (v ≡ 2))
unfolding choose
choose-none command state (some m) t h no_c no_t = cc
choose-none command state none (some k) h no_c no_t = cc
choose-none command state none none {v} h no_c no_t =
    elim (Bool-cases (contains v3_only_commands command)) [
      | inl only ↦ inl (only, sym (ok-injective (rw only at h)))
      | inr other ↦ elim (Bool-cases (contains stateless_commands command)) [
        | inr neither ↦ cc
        | inl stateless ↦ elim (Bool-cases (is_none state)) [
          | inr given ↦ cc
          | inl missing ↦ inr (
            stateless,
            none_given state missing,
            sym (ok-injective (rw (other, stateless, missing) at h)),
          )
        ]
      ]
    ]

choose-found :
    (command : String) (no_state : Bool) (c s : Option ℕ) {v : ℕ}
    → choose command no_state c s ≡ ok v
    → ((n : ℕ) → c ≡ some n → n ≡ v) × ((n : ℕ) → s ≡ some n → n ≡ v)
unfolding choose
choose-found command no_state none none h = (λ n e. cc, λ n e. cc)
choose-found command no_state (some m) none {v} h = (
  λ n e.
      sym (some-injective e)
      ∙ ok-injective (sym (not_both (contains v3_only_commands command) (ok 3) (ok m)) ∙ h),
  λ n e. cc,
)
choose-found command no_state none (some m) {v} h = (
  λ n e. cc,
  λ n e.
      sym (some-injective e)
      ∙ ok-injective (sym (not_both (contains v3_only_commands command) (ok 3) (ok m)) ∙ h),
)
choose-found command no_state (some m) (some k) {v} h = elim (Bool-cases (eqb m k)) [
  | inr other ↦ cc
  | inl same ↦
      let first : m ≡ v =
        ok-injective
          (sym (not_both (contains v3_only_commands command) (ok 3) (ok m)) ∙ rw same at h) in
      (
        λ n e. sym (some-injective e) ∙ first,
        λ n e. sym (some-injective e) ∙ sym (equal_numbers m k same) ∙ first,
      )
]

-- A command that is resolved agrees with the contract and with the task state, where the command names them and
-- they could be read (the state of `init` is not read): it goes to protocol v only if each of the two is of
-- protocol v. Without a contract and without a state to read, it goes to protocol 3 if it is a command of that
-- protocol alone, and else to 2, for a command that needs no state.
pub resolve-Agrees :
    (command : String) (contract state : Loaded) {v : ℕ}
    → resolve_protocol command contract state ≡ ok v
    → Agrees protocol_from_contract contract v
      × Agrees protocol_from_task_manifest (state_read command state) v
      × (contract ≡ none
          → state_read command state ≡ none
          → ((contains v3_only_commands command ≡ true) × (v ≡ 3))
            ⊎ ((contains stateless_commands command ≡ true) × (state ≡ none) × (v ≡ 2)))
unfolding resolve_protocol
resolve-Agrees command contract state {v} h =
    let (c, read_contract, h₁) = >>=-eq-ok (version_by protocol_from_contract contract) _ h in
    let (t, read_task, h₂) =
      >>=-eq-ok (version_by protocol_from_task_manifest (state_read command state)) _ h₁ in
    let (by_contract, by_task) = choose-found command (is_none state) c t h₂ in
    (
      λ raw e.
          let (n, found, made) =
            version_by-found protocol_from_contract contract read_contract raw e in
          subst (λ x. protocol_from_contract raw ≡ ok x) (by_contract n found) made,
      λ raw e.
          let (n, found, made) =
            version_by-found protocol_from_task_manifest (state_read command state) read_task raw
              e in
          subst (λ x. protocol_from_task_manifest raw ≡ ok x) (by_task n found) made,
      λ no_contract no_task.
          choose-none command state c t h₂
            (sym (
              ok-injective
                (sym (ap (version_by protocol_from_contract) no_contract) ∙ read_contract)))
            (sym (
              ok-injective
                (sym (ap (version_by protocol_from_task_manifest) no_task) ∙ read_task))),
    )
