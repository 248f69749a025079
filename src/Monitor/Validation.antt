-- ===== src/Monitor/Validation.antt =====
-- What validateConfig of internal/monitor/control_server.go accepts.
use log_generator.Config.Profiles.{EpsProfile, ProfileError, get_profile}
use log_generator.Config.Profiles.Selection.{get_profile-IsBalanced, get_profile-name}
use log_generator.Monitor.Control.{ConfigError, GeneratorConfig, check_ranges, validate_config}
use log_generator.Prelude.{
  Bool-cases, String, arith, eq_iff, false, if_ind, inl, inr, not, refl, str_eq, sym, true, ◌&&◌,
  ◌||◌, ◌∙◌, ◌≡◌, ◌≢◌, ◌⊎◌,
}
use log_generator.Prelude.Int.{leb_ℤ, ltb_ℤ, pos, ◌≤ℤ◌}
use log_generator.Prelude.Result.{Result, err, ok}

-- A configuration that a generator can run.
pub record IsSound (c : GeneratorConfig) : Type 0 where
  pub some_target : pos 1 ≤ℤ c.target_eps
  pub low_target : c.target_eps ≤ℤ pos 10_000_000
  pub some_worker : pos 1 ≤ℤ c.worker_count
  pub few_workers : c.worker_count ≤ℤ pos 200

-- Every accepted configuration has the property.
abbrev Accepts : (GeneratorConfig → Type 0) → Result ConfigError GeneratorConfig → Type 0
Accepts P (ok d) = P d
Accepts P (err e) = Unit

-- The limits for memory hold too, where the profile does not say.
abbrev InRanges : GeneratorConfig → GeneratorConfig → Type 0
InRanges c d = (d ≡ c) × IsSound d × (pos 1 ≤ℤ d.memory_limit_gb) × (d.memory_limit_gb ≤ℤ pos 64)

check_ranges-InRanges : (c : GeneratorConfig) → Accepts (InRanges c) (check_ranges c)
unfolding check_ranges
check_ranges-InRanges c =
    if_ind (Accepts (InRanges c))
      (leb_ℤ c.target_eps (pos 0) || ltb_ℤ (pos 10_000_000) c.target_eps) (λ _. tt)
      λ target.
        if_ind (Accepts (InRanges c))
          (leb_ℤ c.worker_count (pos 0) || ltb_ℤ (pos 200) c.worker_count) (λ _. tt)
          λ workers.
            if_ind (Accepts (InRanges c))
              (leb_ℤ c.memory_limit_gb (pos 0) || ltb_ℤ (pos 64) c.memory_limit_gb) (λ _. tt)
              (λ memory. (refl, sound c target workers, ground arith, ground arith))
  where
    sound :
        (c : GeneratorConfig)
        → leb_ℤ c.target_eps (pos 0) || ltb_ℤ (pos 10_000_000) c.target_eps ≡ false
        → leb_ℤ c.worker_count (pos 0) || ltb_ℤ (pos 200) c.worker_count ≡ false
        → IsSound c
    sound c t w = record {
      some_target = ground arith;
      low_target = ground arith;
      some_worker = ground arith;
      few_workers = ground arith;
    }

profile_target :
    (name : String) (p : EpsProfile)
    → get_profile name ≡ ok p
    → p.name ≢ "custom"
    → (pos 1 ≤ℤ p.target_eps) × (p.target_eps ≤ℤ pos 4_000_000)
unfolding get_profile
profile_target name p h ne = ground arith

-- What holds of an accepted configuration `d`, made of `c`.
abbrev IsAccepted : GeneratorConfig → GeneratorConfig → Type 0
IsAccepted c d =
    IsSound d
    × ((p : EpsProfile)
        → get_profile c.profile ≡ ok p
        → c.profile ≢ "custom"
        → (d.target_eps ≡ p.target_eps) × (d.worker_count ≡ p.worker_count))
    × (c.profile ≡ "custom"
        → (d ≡ c) × (pos 1 ≤ℤ d.memory_limit_gb) × (d.memory_limit_gb ≤ℤ pos 64))

profile-IsAccepted :
    (c : GeneratorConfig) (p : EpsProfile)
    → get_profile c.profile ≡ ok p
    → c.profile ≢ "custom"
    → IsAccepted c (record c { target_eps = p.target_eps; worker_count = p.worker_count })
profile-IsAccepted c p e ne =
    let name : p.name ≢ "custom" = λ f. ne (sym (get_profile-name c.profile p e) ∙ f) in
    let (low, high) = profile_target c.profile p e name in
    let b = get_profile-IsBalanced c.profile p e name in
    (
      record {
        some_target = low;
        low_target = omega arith;
        some_worker = b.some_worker;
        few_workers = b.few_workers;
      },
      λ q f _. (cc, cc),
      λ custom. absurd (ne custom),
    )

ranges-IsAccepted :
    (c : GeneratorConfig)
    → ((p : EpsProfile) → get_profile c.profile ≡ ok p → c.profile ≡ "custom")
    → Accepts (IsAccepted c) (check_ranges c)
ranges-IsAccepted c unknown = lift (check_ranges c) (check_ranges-InRanges c)
  where
    lift :
        (r : Result ConfigError GeneratorConfig) → Accepts (InRanges c) r → Accepts (IsAccepted c) r
    lift (err e) t = tt
    lift (ok d) (same, s, low, high) =
        (s, λ p f ne. absurd (ne (unknown p f)), λ _. (same, low, high))

known-IsAccepted :
    (c : GeneratorConfig) (r : Result ProfileError EpsProfile)
    → get_profile c.profile ≡ r
    → c.profile ≢ "custom"
    → Accepts (IsAccepted c) (elim r [
      | ok p ↦ ok (record c { target_eps = p.target_eps; worker_count = p.worker_count })
      | err e ↦ check_ranges c
    ])
known-IsAccepted c (ok p) e ne = profile-IsAccepted c p e ne
known-IsAccepted c (err x) e ne = ranges-IsAccepted c (λ p f. cc)

empty_unknown : (p : EpsProfile) → get_profile "" ≡ ok p → ⊥
unfolding get_profile
empty_unknown p e = ground arith

unnamed_cases :
    (name : String)
    → not (str_eq name "") && not (str_eq name "custom") ≡ false
    → (name ≡ "") ⊎ (name ≡ "custom")
unnamed_cases name t = elim (Bool-cases (str_eq name "")) [
  | inl e ↦ inl ((eq_iff name "").0 e)
  | inr e ↦ inr ((eq_iff name "custom").0 (ground arith))
]

unnamed_custom :
    (c : GeneratorConfig) (p : EpsProfile)
    → not (str_eq c.profile "") && not (str_eq c.profile "custom") ≡ false
    → get_profile c.profile ≡ ok p
    → c.profile ≡ "custom"
unnamed_custom c p t e = elim (unnamed_cases c.profile t) [
  | inl empty ↦ absurd (empty_unknown p (rw empty at e))
  | inr custom ↦ custom
]

named_other :
    (c : GeneratorConfig)
    → not (str_eq c.profile "") && not (str_eq c.profile "custom") ≡ true
    → c.profile ≢ "custom"
named_other c t e = ground (arith, eq_iff c.profile "custom")

validate_config-IsAccepted : (c : GeneratorConfig) → Accepts (IsAccepted c) (validate_config c)
unfolding validate_config
validate_config-IsAccepted c =
    if_ind (Accepts (IsAccepted c)) (not (str_eq c.profile "") && not (str_eq c.profile "custom"))
      (λ t. known-IsAccepted c (get_profile c.profile) refl (named_other c t))
      (λ t. ranges-IsAccepted c (λ p f. unnamed_custom c p t f))

-- What validateConfig accepts has a target of 1 to 10,000,000 and 1 to 200 workers. Where the
-- profile is known and not custom they are that profile's, else they are those that it was given,
-- within the limits for memory too.
pub validate_config-IsSound :
    (c d : GeneratorConfig)
    → validate_config c ≡ ok d
    → IsSound d
      × ((p : EpsProfile)
          → get_profile c.profile ≡ ok p
          → c.profile ≢ "custom"
          → (d.target_eps ≡ p.target_eps) × (d.worker_count ≡ p.worker_count))
      × (c.profile ≡ "custom"
          → (d ≡ c) × (pos 1 ≤ℤ d.memory_limit_gb) × (d.memory_limit_gb ≤ℤ pos 64))
validate_config-IsSound c d h = rw h at (validate_config-IsAccepted c)
