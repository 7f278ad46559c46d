-- ===== src/Http/Bodies.antt =====
-- The validated bodies: nestjs-project/src/videos/dto and nestjs-project/src/auth/dto.
use videum_video_platform.Common.{
  ℕ, ◌*◌, ◌^◌, ◌≤◌, ◌<◌, ◌≡◌, ◌↔◌, length-append, Bool, true, false, ◌&&◌, List, [], ◌∷◌, ◌++◌,
  Text, codes, char_count, count_chars, has_variation_selector, length, ok, err, internal, ltb, leb,
  arith,
}
use videum_video_platform.Storage.{
  S3, CompletedPart, MultipartUploadInit, initiate_multipart_upload,
}
use videum_video_platform.Videos.Model.{Video, VideoDb, fits_columns}
use videum_video_platform.Videos.Service.{
  CreateVideoDto, Draw, storage_key_for, draft, save_new_video, create_draft,
}

-- What class-validator reads of a text: whether it is an email, and the length that `MinLength` and
-- `MaxLength` compare.
pub record Validator : Type 0 where
  pub is_email : Text → Bool
  pub str_length : Text → ℕ

-- The length is the number of characters, but for texts with variation selectors, of which nothing
-- is assumed.
abbrev pub CountsCharacters : Validator → Type 0
CountsCharacters validator =
    (s : Text) → has_variation_selector s ≡ false → validator.str_length s ≡ char_count s

-- `MinLength` and `MaxLength`
abbrev pub has_length : Validator → ℕ → ℕ → Text → Bool
has_length validator least most s =
    leb least (validator.str_length s) && leb (validator.str_length s) most

abbrev pub min_length : Validator → ℕ → Text → Bool
min_length validator least s = leb least (validator.str_length s)

-- `IsNotEmpty`
abbrev pub is_not_empty : Text → Bool
is_not_empty [] = false
is_not_empty (c ∷ s) = true

-- `MAX_UPLOAD_BYTES`
abbrev pub max_upload_bytes : ℕ
max_upload_bytes = 10 * 1024 ^ 3

-- `CreateVideoDto`
unfoldable pub is_valid_create_video : Validator → CreateVideoDto → Bool
is_valid_create_video validator dto =
    has_length validator 1 255 dto.title
    && has_length validator 1 255 dto.filename
    && min_length validator 1 dto.content_type
    && ltb 0 dto.size_bytes
    && leb dto.size_bytes max_upload_bytes

-- `UploadedPartDto`
abbrev pub is_valid_part : Validator → CompletedPart → Bool
is_valid_part validator p = ltb 0 p.part_number && min_length validator 1 p.etag

abbrev pub all_valid_parts : Validator → List CompletedPart → Bool
all_valid_parts validator [] = true
all_valid_parts validator (p ∷ parts) = is_valid_part validator p && all_valid_parts validator parts

-- `CompleteUploadDto`
unfoldable pub is_valid_complete_upload : Validator → List CompletedPart → Bool
is_valid_complete_upload validator [] = false
is_valid_complete_upload validator (p ∷ parts) =
    is_valid_part validator p && all_valid_parts validator parts

module _ (validator : Validator) where
  -- `RegisterDto`
  unfoldable pub is_valid_register : Text → Text → Bool
  is_valid_register email password = validator.is_email email && has_length validator 8 128 password

  -- `LoginDto`
  unfoldable pub is_valid_login : Text → Text → Bool
  is_valid_login email password = validator.is_email email && is_not_empty password

  -- `ForgotPasswordDto`
  unfoldable pub is_valid_forgot_password : Text → Bool
  is_valid_forgot_password email = validator.is_email email

  -- `ResendConfirmationDto`
  unfoldable pub is_valid_resend_confirmation : Text → Bool
  is_valid_resend_confirmation email = validator.is_email email

-- `ConfirmEmailDto`
unfoldable pub is_valid_confirm_email : Text → Bool
is_valid_confirm_email token = is_not_empty token

-- `RefreshTokenDto`
unfoldable pub is_valid_refresh_token : Text → Bool
is_valid_refresh_token refresh_token = is_not_empty refresh_token

-- `ResetPasswordDto`
unfoldable pub is_valid_reset_password : Validator → Text → Text → Bool
is_valid_reset_password validator token new_password =
    is_not_empty token && has_length validator 8 128 new_password

-- A text has no more characters than units.
count_chars-le : (pending : Bool) (s : Text) → count_chars pending s ≤ length s
unfolding count_chars
count_chars-le pending [] = omega arith
count_chars-le true (c ∷ s) = ground (arith, count_chars-le false s, count_chars-le true s)
count_chars-le false (c ∷ s) = ground (arith, count_chars-le false s, count_chars-le true s)

char_count-le : (s : Text) → char_count s ≤ length s
unfolding char_count
char_count-le s = count_chars-le false s

storage_key_for-short :
    (public_id : Text) → length public_id ≡ 36 → char_count (storage_key_for public_id) ≤ 512
unfolding storage_key_for
storage_key_for-short public_id short = omega (
  arith,
  char_count-le (codes "videos/" ++ (public_id ++ codes "/original")),
  length-append public_id (codes "/original"),
)

module _ (d : Draw) (owner_id : ℕ) (dto : CreateVideoDto) (upload_id : Text) where
  -- The row of a valid body whose title and filename have no variation selectors fits the columns of
  -- the table exactly if the content type has at most 127 characters, which the body's validation
  -- does not ask for. The public id has the 36 units of a UUID, the storage's upload id fits its
  -- column, and the validator is taken to count the characters of texts without variation selectors.
  pub fits_columns-draft_iff :
      (validator : Validator)
      → CountsCharacters validator
      → is_valid_create_video validator dto ≡ true
      → has_variation_selector dto.title ≡ false
      → has_variation_selector dto.filename ≡ false
      → length d.public_id ≡ 36
      → char_count upload_id ≤ 255
      → (fits_columns (draft d owner_id dto upload_id) ≡ true) ↔ (char_count dto.content_type ≤ 127)
  unfolding is_valid_create_video fits_columns draft
  fits_columns-draft_iff validator counts valid plain_title plain_filename uuid short =
      let title = counts dto.title plain_title in
      let filename = counts dto.filename plain_filename in
      let key = storage_key_for-short d.public_id uuid in
      (λ fits. ground arith, λ few. ground arith)

save_new_video-misfit :
    (v : Video) (db : VideoDb) → fits_columns v ≡ false → save_new_video v db ≡ (err internal, db)
unfolding save_new_video
save_new_video-misfit v db misfit = rw misfit

fits_columns-long :
    (d : Draw) (owner_id : ℕ) (dto : CreateVideoDto) (upload_id : Text)
    → 127 < char_count dto.content_type
    → fits_columns (draft d owner_id dto upload_id) ≡ false
unfolding fits_columns draft
fits_columns-long d owner_id dto upload_id long =
    let no : leb (char_count dto.content_type) 127 ≡ false = ground arith in ground arith

-- A valid body whose content type has more than 127 characters passes the validation, but
-- `createDraft` fails with an internal error after it has started the multipart upload, and writes
-- no row.
pub long_content_type-fails :
    (s3 : S3) (part_size : ℕ) (d : Draw) (owner_id : ℕ) (dto : CreateVideoDto) (db : VideoDb)
    (init : MultipartUploadInit)
    → 127 < char_count dto.content_type
    → initiate_multipart_upload s3 part_size
        (storage_key_for d.public_id)
        dto.content_type
        dto.size_bytes
      ≡ ok init
    → create_draft s3 part_size d owner_id dto db ≡ (err internal, db)
unfolding create_draft
long_content_type-fails s3 part_size d owner_id dto db init long begun = rw (
  begun,
  save_new_video-misfit (draft d owner_id dto init.upload_id) db
      (fits_columns-long d owner_id dto init.upload_id long),
)
