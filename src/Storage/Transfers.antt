-- ===== src/Storage/Transfers.antt =====
-- The transfers of whole objects in nestjs-project/src/storage/storage.service.ts. The client's
-- replies and the `pipeline` of a body into a file are arguments.
use videum_video_platform.Common.{
  Bool, true, false, Option, none, some, Text, Result, ok, err, Action, internal,
}
use videum_video_platform.Storage.{Reply, resolved, rejected}

abbrev after_get_object :
    {F : Type 0}
    → (Text → Text → Action F (Unit {0}))
    → Text
    → Reply (Option Text)
    → Action F (Unit {0})
after_get_object pipeline file_path (rejected error) files = (err internal, files)
after_get_object pipeline file_path (resolved none) files = (err internal, files)
after_get_object pipeline file_path (resolved (some body)) files = pipeline body file_path files

-- `downloadToFile`, over the files of the host.
unfoldable pub download_to_file :
    {F : Type 0}
    → (Text → Reply (Option Text))
    → (Text → Text → Action F (Unit {0}))
    → Text
    → Text
    → Action F (Unit {0})
download_to_file get_object pipeline storage_key file_path files =
    after_get_object pipeline file_path (get_object storage_key) files

abbrev put_result : Reply (Unit {0}) → Result (Unit {0})
put_result (rejected error) = err internal
put_result (resolved _) = ok tt

-- `putObject`: the key, the body and the content type.
unfoldable pub put_object :
    (Text → Text → Text → Reply (Unit {0})) → Text → Text → Text → Result (Unit {0})
put_object send storage_key body content_type = put_result (send storage_key body content_type)

abbrev pub succeeds : {A : Type 0} → Result A → Bool
succeeds (ok a) = true
succeeds (err e) = false
