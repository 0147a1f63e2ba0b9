-- ===== src/Utils/Features.antt =====
-- Texts and flags: `GetBucketName`, `GetAmiNameFromImageSource`, `ParseSpotinstFeatureflags`.
use kubernetes_kops_operator.Prelude.{String, none, some, List, ◌∷◌, ◌==◌, not, if◌then◌else◌}
use kubernetes_kops_operator.Prelude.Text.{split, cut, contains_text}
use kubernetes_kops_operator.Api.{SpotInstSpec}
use kubernetes_kops_operator.Io.{
  Result, ok, err, Io, pure, fail, perform, emit, ◌>>=◌, ◌>>◌, when, maybe, for_each, error,
}
use kubernetes_kops_operator.Outside.Call.{Call}

-- The third part of the text between slashes.
abbrev third_part : List String → Result String
third_part (a ∷ b ∷ bucket ∷ _) =
    if bucket == "" then err (error "invalid kops configBase") else ok bucket
third_part _ = err (error "invalid kops configBase")

unfoldable pub get_bucket_name : String → Result String
unfolding split
get_bucket_name config_base = third_part (split b'/' config_base)

-- `strings.SplitN(image, "/", 2)`: the name and the account.
unfoldable pub get_ami_name_from_image_source : String → Result (String × String)
unfolding cut
get_ami_name_from_image_source image =
    let (account, name) = cut b'/' image in
    elim name [
      | none ↦ err (error "invalid image format, should receive image source")
      | some n ↦ ok (n, account)
    ]

abbrev require_env : String → String → Io (Unit {0})
require_env name text = do
  value ← perform (Call.lookup_env name)
  maybe value (fail (error text)) (λ _. pure tt)

unfoldable pub parse_spotinst_feature_flags : SpotInstSpec → Io (Unit {0})
parse_spotinst_feature_flags spot = do
  emit (Call.parse_flags "-Spotinst,-SpotinstOcean,-SpotinstHybrid,-SpotinstController")
  when spot.enabled do
    require_env "SPOTINST_TOKEN" "missing SPOINST_TOKEN environment variable"
    require_env "SPOTINST_ACCOUNT" "missing SPOTINST_ACCOUNT environment variable"
    emit (Call.parse_flags "Spotinst")
    when (not (spot.feature_flags == "")) (
        for_each (split b',' spot.feature_flags)
          λ flag. when (contains_text flag "Spotinst") (emit (Call.parse_flags flag)))
