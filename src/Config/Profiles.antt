-- ===== src/Config/Profiles.antt =====
-- internal/config/profiles.go: the profiles, and GetProfile.
-- A description that is formatted from the target keeps the target instead of its text.
pub mod Custom
pub mod Bounds
pub mod Selection
use log_generator.Prelude.{List, Option, String, [], if◌then◌else◌, none, some, str_eq, ℕ, ◌*◌, ◌∷◌}
use log_generator.Prelude.Int.{pos, ℤ}
use log_generator.Prelude.Result.{Result, err, ok}

pub data Description : Type 0 where
  fixed : String → Description
  custom_for : ℤ → Description

pub record EpsProfile : Type 0 where
  pub name : String
  pub target_eps : ℤ
  pub worker_count : ℤ
  pub batch_size : ℤ
  pub ticker_interval : ℤ  -- microseconds
  pub send_buffer_size : ℤ  -- KB
  pub receive_buffer_size : ℤ  -- KB
  pub gogc : ℤ
  pub memory_limit : ℤ  -- bytes
  pub description : Description
  pub precision_mode : String

abbrev pub gib : ℕ
gib = 1073741824

abbrev pub profile_100k : EpsProfile
profile_100k = record {
  name = "100k";
  target_eps = pos 100_000;
  worker_count = pos 10;
  batch_size = pos 100;
  ticker_interval = pos 5000;
  send_buffer_size = pos 8192;
  receive_buffer_size = pos 4096;
  gogc = pos 100;
  memory_limit = pos (2 * gib);
  description = fixed "Light load - 100K EPS";
  precision_mode = "high";
}

abbrev pub profile_500k : EpsProfile
profile_500k = record {
  name = "500k";
  target_eps = pos 500_000;
  worker_count = pos 50;
  batch_size = pos 100;
  ticker_interval = pos 5000;
  send_buffer_size = pos 16384;
  receive_buffer_size = pos 8192;
  gogc = pos 150;
  memory_limit = pos (4 * gib);
  description = fixed "Medium load - 500K EPS";
  precision_mode = "high";
}

abbrev pub profile_1m : EpsProfile
profile_1m = record {
  name = "1m";
  target_eps = pos 1_000_000;
  worker_count = pos 40;
  batch_size = pos 250;
  ticker_interval = pos 10000;
  send_buffer_size = pos 32768;
  receive_buffer_size = pos 16384;
  gogc = pos 200;
  memory_limit = pos (6 * gib);
  description = fixed "Standard load - 1M EPS";
  precision_mode = "performance";
}

abbrev pub profile_2m : EpsProfile
profile_2m = record {
  name = "2m";
  target_eps = pos 2_000_000;
  worker_count = pos 80;
  batch_size = pos 250;
  ticker_interval = pos 10000;
  send_buffer_size = pos 65536;
  receive_buffer_size = pos 32768;
  gogc = pos 200;
  memory_limit = pos (8 * gib);
  description = fixed "High load - 2M EPS";
  precision_mode = "performance";
}

abbrev pub profile_4m : EpsProfile
profile_4m = record {
  name = "4m";
  target_eps = pos 4_000_000;
  worker_count = pos 160;
  batch_size = pos 250;
  ticker_interval = pos 10000;
  send_buffer_size = pos 131072;
  receive_buffer_size = pos 65536;
  gogc = pos 200;
  memory_limit = pos (12 * gib);
  description = fixed "Maximum load - 4M EPS";
  precision_mode = "performance";
}

abbrev pub profile_custom : EpsProfile
profile_custom = record {
  name = "custom";
  target_eps = pos 0;
  worker_count = pos 0;
  batch_size = pos 100;
  ticker_interval = pos 50;
  send_buffer_size = pos 65536;
  receive_buffer_size = pos 32768;
  gogc = pos 200;
  memory_limit = pos (8 * gib);
  description = fixed "Custom configuration";
  precision_mode = "medium";
}

-- The map `EPSProfiles`, under its keys.
abbrev pub eps_profiles : List (String × EpsProfile)
eps_profiles =
    ("100k", profile_100k)
    ∷ ("500k", profile_500k)
    ∷ ("1m", profile_1m)
    ∷ ("2m", profile_2m)
    ∷ ("4m", profile_4m)
    ∷ ("custom", profile_custom)
    ∷ []

unfoldable pub find_profile : String → List (String × EpsProfile) → Option EpsProfile
find_profile name [] = none
find_profile name ((key, p) ∷ rest) = if str_eq key name then some p else find_profile name rest

pub data ProfileError : Type 0 where
  unknown_profile : String → ProfileError

-- GetProfile; the copy that it returns is a value here.
unfoldable pub get_profile : String → Result ProfileError EpsProfile
unfolding find_profile
get_profile name = elim (find_profile name eps_profiles) [
  | none ↦ err (unknown_profile name)
  | some p ↦ ok p
]

-- ListProfiles
abbrev pub list_profiles : List String
list_profiles = "100k" ∷ "500k" ∷ "1m" ∷ "2m" ∷ "4m" ∷ "custom" ∷ []
