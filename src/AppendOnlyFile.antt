-- ===== src/AppendOnlyFile.antt =====
-- append_only_file.rs: the file that the write-ahead log is kept in, as its bytes. What the
-- operating system answers is an argument.
use simple_kv.Prelude.{
  ℕ, zero, suc, ◌++◌, Bool, true, false, Option, none, some, List, [], ◌∷◌, Run, panic, ok, Result,
  done, err, length, take, drop,
}
use simple_kv.Util.{Bytes}
use simple_kv.Request.{Chunk, bytes, read_chunk_size}

pub record AppendOnlyFile : Type 0 where
  pub file : Bytes

-- What `write_all` does with the bytes: it writes them all, or only the first of them and fails
-- with an error of the text given.
pub data Writing : Type 0 where
  written : Writing
  write_failed : ℕ → Bytes → Writing

-- `open`, with `append` and `create`: the bytes of the file that is there, or none.
abbrev pub open_file : Option Bytes → AppendOnlyFile
open_file none = record { file = [] }
open_file (some contents) = record { file = contents }

unfoldable pub append : Writing → AppendOnlyFile → Bytes → Result Bytes Unit × AppendOnlyFile
append written aof b = (done tt, record { file = aof.file ++ b })
append (write_failed n text) aof b = (err text, record { file = aof.file ++ take n b })

-- The reads of a file from its start, each of which fills the chunk of the reader, to its end.
unfoldable pub reads : ℕ → Bytes → List Chunk
reads zero b = []
reads (suc fuel) [] = []
reads (suc fuel) (c ∷ b) =
    bytes (take read_chunk_size (c ∷ b)) ∷ reads fuel (drop read_chunk_size (c ∷ b))

-- The seek fails, or the file is read from its start.
unfoldable pub get_file_content_from_start : Bool → AppendOnlyFile → Option (List Chunk)
get_file_content_from_start false aof = none
get_file_content_from_start true aof = some (reads (length aof.file) aof.file)

-- A second handle on the same file, if the operating system gives one.
unfoldable try_clone : Bool → AppendOnlyFile → Option AppendOnlyFile
try_clone false aof = none
try_clone true aof = some aof

-- The `expect` of `sync` panics in the thread that calls it; the bytes stay.
unfoldable sync : Bool → AppendOnlyFile → Run (Unit {0})
sync false aof = panic
sync true aof = ok tt
