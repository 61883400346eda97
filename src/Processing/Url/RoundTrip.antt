-- ===== src/Processing/Url/RoundTrip.antt =====
-- Which bucket and key an S3 URL is read as.
use hotel_reviews_microservi.Base.{
  some, [], ◌∷◌, ◌++◌, ◌==◌, ◌≡◌, ◌≢◌, ◌↔◌, refl, ap, arith, All, Bool-cases, inl, inr,
  Option-cases,
}
use hotel_reviews_microservi.Processing.Types.{Bytes}
use hotel_reviews_microservi.Processing.Url.{
  split_two, s3_scheme, slash, parse_s3_url, get_file_url,
}

abbrev pub IsSlashFree : Bytes → Type 0
IsSlashFree = All λ c. c ≢ b'/'

split_two-append :
    (bucket key : Bytes)
    → IsSlashFree bucket
    → split_two (bucket ++ b'/' ∷ key) slash ≡ some (bucket, key)
unfolding split_two
split_two-append [] key free = refl
split_two-append (c ∷ bucket) key free = ground (arith, split_two-append bucket key free.1)

split_two-some :
    (s bucket key : Bytes)
    → split_two s slash ≡ some (bucket, key)
    → (s ≡ bucket ++ b'/' ∷ key) × IsSlashFree bucket
unfolding split_two
split_two-some [] bucket key h = cc
split_two-some (c ∷ s) bucket key h = elim (Bool-cases (c == b'/')) [
  | inl hit ↦
      let parts : Path Bytes [] bucket × Path Bytes s key =
        (ground (arith, hit, h), ground (arith, hit, h)) in
      rw (← parts.0, ← parts.1) (ground arith, tt)
  | inr miss ↦ elim (Option-cases (split_two s slash)) [
    | inl one ↦ absurd (ground (arith, miss, one, h))
    | inr ((a, b), two) ↦
        let parts : Path Bytes (c ∷ a) bucket × Path Bytes b key =
          (ground (arith, miss, two, h), ground (arith, miss, two, h)) in
        let rest = split_two-some s a b two in
        rw (← parts.0, ← parts.1) (ap (◌∷◌ c) rest.0, (ground (arith, miss), rest.1))
  ]
]

-- A URL of the `s3` scheme is read as a bucket and a key exactly when it is the scheme, the bucket, a slash
-- and the key, and the bucket has no slash; both may be empty.
pub parse_s3_url_iff :
    (path bucket key : Bytes)
    → (parse_s3_url (s3_scheme ++ path) ≡ some (bucket, key))
      ↔ ((path ≡ bucket ++ b'/' ∷ key) × IsSlashFree bucket)
unfolding parse_s3_url
parse_s3_url_iff path bucket key =
    (split_two-some path bucket key, λ (e, free). rw e (split_two-append bucket key free))

-- The URL that the S3 client gives for a file of a bucket without a slash is read as that bucket and key.
pub parse_s3_url-get_file_url :
    (bucket key : Bytes)
    → IsSlashFree bucket
    → parse_s3_url (get_file_url bucket key) ≡ some (bucket, key)
unfolding get_file_url
parse_s3_url-get_file_url bucket key free =
    (parse_s3_url_iff (bucket ++ b'/' ∷ key) bucket key).1 (refl, free)
