-- ===== src/Command/Display.antt =====
-- `Display` of command.rs, which the log messages use. `String::from_utf8_lossy` is a parameter.
use simple_kv.Prelude.{List, [], ◌∷◌, ◌++◌}
use simple_kv.Util.{Bytes, codes, to_string}
use simple_kv.Command.{
  Command, get, set, mget, mset, del, getall, expire_at, ttl, name, CommandError, invalid_utf8,
  unrecognized_command, too_few_arguments, too_many_arguments, uneven_argument_length,
  invalid_expiration, get_name, set_name, mget_name, mset_name, del_name, getall_name, expire_name,
  expireat_name, ttl_name,
}

module _ (from_utf8_lossy : Bytes → Bytes) where
  unfoldable pub write_keys : List Bytes → Bytes
  write_keys [] = []
  write_keys (key ∷ keys) = b' ' ∷ (from_utf8_lossy key ++ write_keys keys)

  unfoldable pub write_entries : List (Bytes × Bytes) → Bytes
  write_entries [] = []
  write_entries ((key, value) ∷ entries) =
      (b' ' ∷ from_utf8_lossy key) ++ ((b' ' ∷ from_utf8_lossy value) ++ write_entries entries)

  unfoldable pub write_args : Command → Bytes
  write_args (get key) = write_keys (key ∷ [])
  write_args (set key value) = write_keys (key ∷ value ∷ [])
  write_args (mget keys) = write_keys keys
  write_args (mset entries) = write_entries entries
  write_args (del keys) = write_keys keys
  write_args getall = []
  write_args (ttl key) = write_keys (key ∷ [])
  write_args (expire_at key timestamp) = write_keys (key ∷ []) ++ (b' ' ∷ to_string timestamp)

  unfoldable pub display : Command → Bytes
  display c = name c ++ write_args c

abbrev pub command_names : List Bytes
command_names =
    get_name ∷ set_name ∷ mget_name ∷ mset_name ∷ del_name ∷ getall_name ∷ expire_name
    ∷ expireat_name ∷ ttl_name ∷ []

-- The messages of errors; `debug` is the `Debug` of the names.
unfoldable pub error_text : (List Bytes → Bytes) → CommandError → Bytes
error_text debug invalid_utf8 = codes "command name was not valid utf-8"
error_text debug (unrecognized_command command) =
    codes "unrecognized command name: "
    ++ (command ++ (codes ", expected one of: " ++ debug command_names))
error_text debug (too_few_arguments n) =
    codes "command has too few arguments; request had " ++ (to_string n ++ codes " elements")
error_text debug (too_many_arguments n) = codes "request had too many elements: " ++ to_string n
error_text debug (uneven_argument_length n) = codes "expected even length, got len: " ++ to_string n
error_text debug (invalid_expiration text) =
    codes "expiration must be a valid integer, got: " ++ text
