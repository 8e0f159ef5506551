-- ===== src/Tests/AppendOnlyFileUnit.antt =====
-- The unit tests of append_only_file.rs, as statements on the model.
use simple_kv.Prelude.{◌≡◌, refl, true, none, some, [], ◌∷◌}
use simple_kv.Util.{codes}
use simple_kv.Request.{bytes}
use simple_kv.AppendOnlyFile.{written, open_file, append, reads, get_file_content_from_start}

abbrev CreatesFileWhenItDoesNotExist : Type 0
CreatesFileWhenItDoesNotExist = (open_file none).file ≡ []

creates_file_when_it_does_not_exist : CreatesFileWhenItDoesNotExist
creates_file_when_it_does_not_exist = refl

abbrev OpensExistingFileWithoutTruncating : Type 0
OpensExistingFileWithoutTruncating = (open_file (some (codes "existing"))).file ≡ codes "existing"

opens_existing_file_without_truncating : OpensExistingFileWithoutTruncating
opens_existing_file_without_truncating = refl

abbrev AppendWritesBytesToTheFile : Type 0
AppendWritesBytesToTheFile =
    (append written (open_file none) (codes "some data")).1.file ≡ codes "some data"

append_writes_bytes_to_the_file : AppendWritesBytesToTheFile
unfolding append
append_writes_bytes_to_the_file = refl

abbrev AppendDoesNotTruncateExistingContents : Type 0
AppendDoesNotTruncateExistingContents =
    (append written (open_file (some (codes "existing "))) (codes "data")).1.file
    ≡ codes "existing data"

append_does_not_truncate_existing_contents : AppendDoesNotTruncateExistingContents
unfolding append
append_does_not_truncate_existing_contents = refl

abbrev ReaderReadsAppendedDataFromStart : Type 0
ReaderReadsAppendedDataFromStart =
    get_file_content_from_start true (append written (open_file none) (codes "pending data")).1
    ≡ some (bytes (codes "pending data") ∷ [])

reader_reads_appended_data_from_start : ReaderReadsAppendedDataFromStart
unfolding append get_file_content_from_start reads
reader_reads_appended_data_from_start = refl
