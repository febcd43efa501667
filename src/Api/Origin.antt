-- ===== src/Api/Origin.antt =====
-- common/origin/origin.go and the parsing of the allowed origins in cfg/cfg.go. `url.Parse` is a
-- parameter: the host of a text that parses.
pub mod Laws
use che_machine_exec.Common.{
  ℕ, Text, codes, is_empty, trim_space, trim_right, split, join, Bool, true, false, ◌||◌, Option,
  none, some, List, [], ◌∷◌, if◌then◌else◌,
}
use che_machine_exec.Watcher.Config.{Folding}

-- The `Origin` header, empty if it is missing, and the host of a request.
pub record OriginRequest : Type 0 where
  pub origin : Text
  pub host : Text

abbrev pub normalize : Text → Text
normalize allowed = trim_right b'/' (trim_space allowed)

unfoldable pub origin_matches : Folding → Text → Text → Text → Bool
unfolding trim_right trim_space is_empty
origin_matches fold origin_host origin allowed =
    if is_empty (normalize allowed)
    then false
    else if fold.equal_fold origin (normalize allowed)
    then true
    else fold.equal_fold origin_host (normalize allowed)

unfoldable pub any_matches : Folding → Text → Text → List Text → Bool
unfolding origin_matches
any_matches fold origin_host origin [] = false
any_matches fold origin_host origin (allowed ∷ rest) =
    origin_matches fold origin_host origin allowed || any_matches fold origin_host origin rest

unfoldable pub is_origin_allowed : Folding → (Text → Option Text) → List Text → OriginRequest → Bool
unfolding any_matches is_empty
is_origin_allowed fold parse_url allowed_origins r =
    if is_empty r.origin then true else elim (parse_url r.origin) [
      | none ↦ false
      | some origin_host ↦
          if fold.equal_fold origin_host r.host
          then true
          else any_matches fold origin_host r.origin allowed_origins
    ]

-- `stringSliceFlag.String`.
abbrev pub string_of : List Text → Text
string_of origins = join (codes ",") origins

unfoldable pub keep_trimmed : List Text → List Text
unfolding trim_space is_empty
keep_trimmed [] = []
keep_trimmed (o ∷ os) =
    let rest = keep_trimmed os in if is_empty (trim_space o) then rest else trim_space o ∷ rest

-- `stringSliceFlag.Set`.
unfoldable pub parse_allowed_origins : Text → List Text
unfolding keep_trimmed split
parse_allowed_origins value = keep_trimmed (split b',' value)
