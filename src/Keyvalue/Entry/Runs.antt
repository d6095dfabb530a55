-- ===== src/Keyvalue/Entry/Runs.antt =====
-- An entry at concrete inputs.
use plexdb.Prelude.{◌≡◌, some, arith}
use plexdb.Core.Text.{bytes}
use plexdb.Keyvalue.Entry.{write_blob, entry, write_blob-entry}

write_blob-entry_example :
    write_blob (entry (bytes "k") (bytes "old value")) (bytes "key") (bytes "v")
    ≡ some (entry (bytes "key") (bytes "v"))
write_blob-entry_example =
    write_blob-entry (entry (bytes "k") (bytes "old value")) (bytes "key") (bytes "v") (omega arith)
