-- ===== src/Storage.antt =====
-- nestjs-project/src/storage/storage.service.ts. The replies of the S3 client are arguments, and
-- so are the texts that the presigner returns; bucket and expiry are the same in every call.
pub mod Parts
pub mod Transfers
use Prim.Native.Nat.{max}
use videum_video_platform.Common.{
  ℕ, zero, suc, ◌+◌, ◌-◌, ◌/◌, Bool, true, false, ◌||◌, List, [], ◌∷◌, ◌++◌, map, Option, none,
  some, Text, codes, text_eq, Result, ok, err, internal, leb, ◌==◌, if◌then◌else◌,
}

-- What a rejected call of the client carries.
pub record S3Error : Type 0 where
  pub name : Option Text
  pub http_status_code : Option ℕ

pub data Reply (A : Type 0) : Type 0 where
  resolved : A → Reply A
  rejected : S3Error → Reply A

pub record CompletedPart : Type 0 where
  pub part_number : ℕ
  pub etag : Text

pub record PresignedPart : Type 0 where
  pub part_number : ℕ
  pub url : Text

pub record MultipartUploadInit : Type 0 where
  pub upload_id : Text
  pub parts : List PresignedPart

-- The S3 client and the presigner, as one request meets them.
pub record S3 : Type 0 where
  pub head_bucket : Reply (Unit {0})
  pub create_bucket : Reply (Unit {0})
  -- key, content type; the reply is the `UploadId`
  pub create_multipart_upload : Text → Text → Reply (Option Text)
  -- key, upload id, parts
  pub complete_multipart_upload : Text → Text → List CompletedPart → Reply (Unit {0})
  -- key; the reply is the `ContentLength`
  pub head_object : Text → Reply (Option ℕ)
  -- key, upload id, part number
  pub sign_part : Text → Text → ℕ → Text
  -- key, content disposition
  pub sign_get : Text → Option Text → Text

abbrev pub name_is : Text → Option Text → Bool
name_is text none = false
name_is text (some name) = text_eq name text

abbrev pub status_is : ℕ → Option ℕ → Bool
status_is code none = false
status_is code (some status) = status == code

-- A value that JavaScript takes for true: a text that is there and not empty.
abbrev pub truthy : Option Text → Bool
truthy none = false
truthy (some []) = false
truthy (some (_ ∷ _)) = true

-- `isNotFound`
unfoldable pub is_not_found : S3Error → Bool
is_not_found error =
    name_is (codes "NotFound") error.name
    || name_is (codes "NoSuchKey") error.name
    || status_is 404 error.http_status_code

abbrev create_bucket_result : Reply (Unit {0}) → Result (Unit {0})
create_bucket_result (resolved _) = ok tt
create_bucket_result (rejected error) =
    if name_is (codes "BucketAlreadyOwnedByYou") error.name
      || name_is (codes "BucketAlreadyExists") error.name
    then ok tt
    else err internal

abbrev head_bucket_result : Reply (Unit {0}) → Reply (Unit {0}) → Result (Unit {0})
head_bucket_result (resolved _) created = ok tt
head_bucket_result (rejected error) created =
    if is_not_found error then create_bucket_result created else err internal

-- `ensureBucket`
unfoldable pub ensure_bucket : S3 → Result (Unit {0})
ensure_bucket s3 = head_bucket_result s3.head_bucket s3.create_bucket

-- `Math.ceil(a / b)` for a positive `b`.
abbrev pub ceil_div : ℕ → ℕ → ℕ
ceil_div a b = (a + (b - 1)) / b

-- `partCount`
unfoldable pub part_count : ℕ → ℕ → ℕ
part_count part_size_bytes size_bytes = max 1 (ceil_div size_bytes part_size_bytes)

-- The loop of `getPresignedPartUrls` from a part number, with the given number of rounds left.
unfoldable pub presign_from : S3 → Text → Text → ℕ → ℕ → List PresignedPart
presign_from s3 storage_key upload_id part_number zero = []
presign_from s3 storage_key upload_id part_number (suc left) =
    record { part_number = part_number; url = s3.sign_part storage_key upload_id part_number }
    ∷ presign_from s3 storage_key upload_id (suc part_number) left

-- `getPresignedPartUrls`
unfoldable pub get_presigned_part_urls : S3 → Text → Text → ℕ → List PresignedPart
unfolding presign_from
get_presigned_part_urls s3 storage_key upload_id count =
    presign_from s3 storage_key upload_id 1 count

abbrev pub initiated : S3 → ℕ → Text → ℕ → Reply (Option Text) → Result MultipartUploadInit
initiated s3 part_size storage_key size_bytes (rejected _) = err internal
initiated s3 part_size storage_key size_bytes (resolved none) = err internal
initiated s3 part_size storage_key size_bytes (resolved (some [])) = err internal
initiated s3 part_size storage_key size_bytes (resolved (some (c ∷ id))) = ok (record {
  upload_id = c ∷ id;
  parts = get_presigned_part_urls s3 storage_key (c ∷ id) (part_count part_size size_bytes);
})

-- `initiateMultipartUpload`
unfoldable pub initiate_multipart_upload : S3 → ℕ → Text → Text → ℕ → Result MultipartUploadInit
initiate_multipart_upload s3 part_size storage_key content_type size_bytes =
    initiated s3 part_size storage_key size_bytes
      (s3.create_multipart_upload storage_key content_type)

-- `[...parts].sort((a, b) => a.part_number - b.part_number)`, a stable sort.
unfoldable pub insert_part : CompletedPart → List CompletedPart → List CompletedPart
insert_part p [] = p ∷ []
insert_part p (q ∷ parts) =
    if leb p.part_number q.part_number then p ∷ q ∷ parts else q ∷ insert_part p parts

unfoldable pub sort_parts : List CompletedPart → List CompletedPart
unfolding insert_part
sort_parts [] = []
sort_parts (p ∷ parts) = insert_part p (sort_parts parts)

-- `completeMultipartUpload`
unfoldable pub complete_multipart_upload : S3 → Text → Text → List CompletedPart → Reply (Unit {0})
unfolding sort_parts
complete_multipart_upload s3 storage_key upload_id parts =
    s3.complete_multipart_upload storage_key upload_id (sort_parts parts)

-- `head.ContentLength ?? 0`
abbrev pub or_zero : Option ℕ → ℕ
or_zero none = 0
or_zero (some n) = n

abbrev pub head_result : Reply (Option ℕ) → Result (Option ℕ)
head_result (resolved length) = ok (some (or_zero length))
head_result (rejected error) = if is_not_found error then ok none else err internal

-- `headObject`: the object's size, `none` where there is no object.
unfoldable pub head_object : S3 → Text → Result (Option ℕ)
head_object s3 storage_key = head_result (s3.head_object storage_key)

-- The `ResponseContentDisposition` of a download, for a file name that is not empty.
abbrev pub disposition : Option Text → Option Text
disposition none = none
disposition (some []) = none
disposition (some (c ∷ name)) = some (codes "attachment; filename=\"" ++ ((c ∷ name) ++ codes "\""))

-- `getPresignedGetUrl`
unfoldable pub get_presigned_get_url : S3 → Text → Option Text → Text
get_presigned_get_url s3 storage_key download_filename =
    s3.sign_get storage_key (disposition download_filename)
