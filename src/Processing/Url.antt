-- ===== src/Processing/Url.antt =====
-- `parseS3URL`, with the functions of Go's strings that it calls.
pub mod RoundTrip
use hotel_reviews_microservi.Base.{
  codes, ℕ, Bool, true, false, ◌&&◌, ◌||◌, Option, none, some, List, [], ◌∷◌, ◌++◌, if◌then◌else◌,
  ◌==◌,
}
use hotel_reviews_microservi.Processing.Types.{Bytes}

abbrev pub has_prefix : Bytes → Bytes → Bool
has_prefix s [] = true
has_prefix [] (p ∷ ps) = false
has_prefix (c ∷ s) (p ∷ ps) = c == p && has_prefix s ps

abbrev drop_bytes : Bytes → Bytes → Bytes
drop_bytes s [] = s
drop_bytes [] (p ∷ ps) = []
drop_bytes (c ∷ s) (p ∷ ps) = drop_bytes s ps

abbrev pub trim_prefix : Bytes → Bytes → Bytes
trim_prefix s p = if has_prefix s p then drop_bytes s p else s

-- `strings.SplitN(s, sep, 2)` for a separator that is not empty: the parts before and after its first
-- occurrence, or `none` where there is one part only.
unfoldable pub split_two : Bytes → Bytes → Option (Bytes × Bytes)
split_two [] sep = none
split_two (c ∷ s) sep =
    let rest = split_two s sep in
    if has_prefix (c ∷ s) sep
    then some ([], drop_bytes (c ∷ s) sep)
    else (elim rest [ none ↦ none | some (a, b) ↦ some (c ∷ a, b) ])

abbrev pub contains : Bytes → Bytes → Bool
contains [] sep = has_prefix [] sep
contains (c ∷ s) sep = has_prefix (c ∷ s) sep || contains s sep

abbrev pub s3_scheme : Bytes
s3_scheme = codes "s3://"

abbrev pub https_scheme : Bytes
https_scheme = codes "https://"

abbrev pub host : Bytes
host = codes "s3.amazonaws.com/"

abbrev pub bucket_host : Bytes
bucket_host = codes ".s3.amazonaws.com/"

abbrev pub path_style : Bytes
path_style = codes "https://s3.amazonaws.com/"

abbrev pub slash : Bytes
slash = codes "/"

-- The bucket and the key, `none` for the error.
unfoldable pub parse_s3_url : Bytes → Option (Bytes × Bytes)
unfolding split_two
parse_s3_url url =
    if has_prefix url s3_scheme
    then split_two (trim_prefix url s3_scheme) slash
    else if has_prefix url https_scheme
    then if contains url bucket_host
      then split_two (trim_prefix url https_scheme) bucket_host
      else if contains url host
      then split_two (trim_prefix url path_style) slash
      else none
    else none

-- `GetFileURL` of the S3 client.
unfoldable pub get_file_url : Bytes → Bytes → Bytes
get_file_url bucket key = s3_scheme ++ (bucket ++ b'/' ∷ key)
